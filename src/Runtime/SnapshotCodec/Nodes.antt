-- ===== src/Runtime/SnapshotCodec/Nodes.antt =====
-- modules/runtime/adapters/shared/snapshot_codec.py: `node_statuses` written and read back.
use mathlib.Core.List.{append-nil}
use engram_mesh.Common.{
  String, false, none, some, [], ◌∷◌, ◌++◌, ◌≡◌, refl, sym, ap, ◌∙◌, ◌==◌, string_eq, nat_eq, All,
  All-map, Bool-cases, inl, inr, arith, if◌then◌else◌,
}
use engram_mesh.Common.Dict.{Dict, insert}
use engram_mesh.Common.Result.{ok, ◌>>=◌, Result-cases}
use engram_mesh.Kernel.Ids.{NodeId, UuidValue, uuid_text}
use engram_mesh.Kernel.Json.{Value, str, Fields, end, field, text, other_key}
use engram_mesh.Kernel.Parse.{TextParsers, field_of, set_field, require_str}
use engram_mesh.Runtime.Status.{
  ExecutionStatus, NodeStatus, execution_status_value, node_status_value,
}
use engram_mesh.Runtime.SnapshotCodec.{execution_status_of, node_status_of, node_fields, read_nodes}

pub execution_status_of-value :
    (status : ExecutionStatus) → execution_status_of (execution_status_value status) ≡ ok status
unfolding execution_status_of
execution_status_of-value ExecutionStatus.pending = refl
execution_status_of-value ExecutionStatus.planning = refl
execution_status_of-value ExecutionStatus.running = refl
execution_status_of-value ExecutionStatus.waiting = refl
execution_status_of-value ExecutionStatus.retrying = refl
execution_status_of-value ExecutionStatus.cancelling = refl
execution_status_of-value ExecutionStatus.compensating = refl
execution_status_of-value ExecutionStatus.succeeded = refl
execution_status_of-value ExecutionStatus.failed = refl
execution_status_of-value ExecutionStatus.cancelled = refl

node_status_of-value : (status : NodeStatus) → node_status_of (node_status_value status) ≡ ok status
unfolding node_status_of
node_status_of-value NodeStatus.pending = refl
node_status_of-value NodeStatus.ready = refl
node_status_of-value NodeStatus.running = refl
node_status_of-value NodeStatus.waiting = refl
node_status_of-value NodeStatus.retrying = refl
node_status_of-value NodeStatus.cancelling = refl
node_status_of-value NodeStatus.compensating = refl
node_status_of-value NodeStatus.succeeded = refl
node_status_of-value NodeStatus.failed = refl
node_status_of-value NodeStatus.cancelled = refl
node_status_of-value NodeStatus.skipped = refl
node_status_of-value NodeStatus.compensated = refl

-- The keys of a dict are distinct.
abbrev pub HasDistinctNodes : Dict NodeId NodeStatus → Type 0
HasDistinctNodes [] = Unit
HasDistinctNodes ((k, v) ∷ d) = All (λ e. (e.0 == k) ≡ false) d × HasDistinctNodes d

-- The dict with the entries of another written into it.
abbrev insert_each : Dict NodeId NodeStatus → Dict NodeId NodeStatus → Dict NodeId NodeStatus
insert_each [] r = r
insert_each ((k, v) ∷ d) r = insert_each d (insert k v r)

Lacks : NodeId → Dict NodeId NodeStatus → Type 0
Lacks k r = All (λ e. (k == e.0) ≡ false) r

insert_lacking :
    (k : NodeId) (v : NodeStatus) (r : Dict NodeId NodeStatus)
    → Lacks k r
    → insert k v r ≡ r ++ (k, v) ∷ []
unfolding Lacks
insert_lacking k v [] lacks = refl
insert_lacking k v ((j, w) ∷ r) lacks =
    rw lacks.0 (ap (λ d. (j, w) ∷ d) (insert_lacking k v r lacks.1))

Lacks-append :
    (k j : NodeId) (w : NodeStatus) (r : Dict NodeId NodeStatus)
    → Lacks k r
    → (k == j) ≡ false
    → Lacks k (r ++ (j, w) ∷ [])
unfolding Lacks
Lacks-append k j w [] lacks other = (other, tt)
Lacks-append k j w ((i, v) ∷ r) lacks other = (lacks.0, Lacks-append k j w r lacks.1 other)

append_assoc :
    (r d : Dict NodeId NodeStatus) (e : NodeId × NodeStatus) → (r ++ e ∷ []) ++ d ≡ r ++ e ∷ d
append_assoc [] d e = refl
append_assoc (x ∷ r) d e = ap (λ xs. x ∷ xs) (append_assoc r d e)

All-both :
    (j : NodeId) (w : NodeStatus) (r d : Dict NodeId NodeStatus)
    → All (λ e. Lacks e.0 r) d
    → All (λ e. (e.0 == j) ≡ false) d
    → All (λ e. Lacks e.0 (r ++ (j, w) ∷ [])) d
All-both j w r [] lacks other = tt
All-both j w r ((k, v) ∷ d) lacks other =
    (Lacks-append k j w r lacks.0 other.0, All-both j w r d lacks.1 other.1)

insert_each-append :
    (d r : Dict NodeId NodeStatus)
    → HasDistinctNodes d
    → All (λ e. Lacks e.0 r) d
    → insert_each d r ≡ r ++ d
insert_each-append [] r distinct lacks = sym (append-nil r)
insert_each-append ((k, v) ∷ d) r distinct lacks =
    ap (insert_each d) (insert_lacking k v r lacks.0)
    ∙ insert_each-append d (r ++ (k, v) ∷ []) distinct.1 (All-both k v r d lacks.1 distinct.0)
    ∙ append_assoc r d (k, v)

insert_each_lem : (d : Dict NodeId NodeStatus) → HasDistinctNodes d → insert_each d [] ≡ d
unfolding Lacks
insert_each_lem d distinct = insert_each-append d [] distinct (lacks_none d)
  where
    lacks_none : (d : Dict NodeId NodeStatus) → All (λ e. Lacks e.0 []) d
    lacks_none [] = tt
    lacks_none (e ∷ d) = (tt, lacks_none d)

field_of-set_field :
    (n m : String) (v : Value) (fields : Fields)
    → field_of n (set_field m v fields) ≡ (if n == m then some v else field_of n fields)
field_of-set_field n m v end = refl
field_of-set_field n m v (field (text key) old fields) = ground (
  arith,
  string_eq.same_iff n m,
  string_eq.same_iff m key,
  string_eq.same_iff n key,
  field_of-set_field n m v fields,
)
field_of-set_field n m v (field other_key old fields) = field_of-set_field n m v fields

-- `UUID(str(id))` is the identifier.
abbrev pub Reads : TextParsers → UuidValue → Type 0
Reads parsers u = parsers.uuid (uuid_text u) ≡ ok u

module _ (parsers : TextParsers) where
  Reads-distinct :
      (u v : UuidValue)
      → Reads parsers u
      → Reads parsers v
      → (u == v) ≡ false
      → (uuid_text u == uuid_text v) ≡ false
  Reads-distinct u v reads_u reads_v other = elim (Bool-cases (uuid_text u == uuid_text v)) [
    | inr distinct ↦ distinct
    | inl same ↦
        let texts = (string_eq.same_iff (uuid_text u) (uuid_text v)).0 same in
        let oks = sym reads_u ∙ ap parsers.uuid texts ∙ reads_v in
        ground (arith, nat_eq.same_iff u v)
  ]

  -- A field with a new key is the last that is read.
  read_nodes-set_field :
      (u : NodeId) (status : NodeStatus) (fields : Fields) (acc : Dict NodeId NodeStatus)
      → Reads parsers u
      → field_of (uuid_text u) fields ≡ none
      → read_nodes parsers (set_field (uuid_text u) (str (node_status_value status)) fields) acc
        ≡ (read_nodes parsers fields acc >>= λ r. ok (insert u status r))
  unfolding read_nodes
  read_nodes-set_field u status end acc reads new = rw (node_status_of-value status) (rw reads refl)
  read_nodes-set_field u status (field (text key) old fields) acc reads new =
      elim (Bool-cases (uuid_text u == key)) [
        | inl same ↦ ground arith
        | inr distinct ↦ rw distinct (elim (Result-cases (require_str old)) [
          | inl (e, raised) ↦ rw raised refl
          | inr (s, is_text) ↦ rw is_text (elim (Result-cases (node_status_of s)) [
            | inl (e, raised) ↦ rw raised refl
            | inr (old_status, known) ↦ rw known (elim (Result-cases (parsers.uuid key)) [
              | inl (e, raised) ↦ rw raised refl
              | inr (node_id, is_uuid) ↦ rw is_uuid (
                  read_nodes-set_field u status fields (insert node_id old_status acc) reads
                    (ground arith))
            ])
          ])
        ])
      ]
  read_nodes-set_field u status (field other_key old fields) acc reads new = refl

  -- The identifiers read back, and none of their texts is a key yet.
  AllNew : Dict NodeId NodeStatus → Fields → Type 0
  AllNew d fields = All (λ e. Reads parsers e.0 × (field_of (uuid_text e.0) fields ≡ none)) d

  AllNew-set_field :
      (u : NodeId) (v : Value) (d : Dict NodeId NodeStatus) (fields : Fields)
      → Reads parsers u
      → All (λ e. (e.0 == u) ≡ false) d
      → AllNew d fields
      → AllNew d (set_field (uuid_text u) v fields)
  unfolding AllNew
  AllNew-set_field u v [] fields reads other new = tt
  AllNew-set_field u v ((k, w) ∷ d) fields reads other new = (
    (
      new.0.0,
      field_of-set_field (uuid_text k) (uuid_text u) v fields
          ∙ rw (Reads-distinct k u new.0.0 reads other.0) new.0.1,
    ),
    AllNew-set_field u v d fields reads other.1 new.1,
  )

  read_nodes-node_fields :
      (d : Dict NodeId NodeStatus) (fields : Fields)
      → HasDistinctNodes d
      → AllNew d fields
      → read_nodes parsers (node_fields d fields) []
        ≡ (read_nodes parsers fields [] >>= λ r. ok (insert_each d r))
  unfolding node_fields AllNew
  read_nodes-node_fields [] fields distinct new =
      elim (Result-cases (read_nodes parsers fields [])) [
        | inl (e, raised) ↦ rw raised refl
        | inr (r, read) ↦ rw read refl
      ]
  read_nodes-node_fields ((u, status) ∷ d) fields distinct new =
      read_nodes-node_fields d (set_field (uuid_text u) (str (node_status_value status)) fields)
        distinct.1
        (AllNew-set_field u (str (node_status_value status)) d fields new.0.0 distinct.0 new.1)
      ∙ rw (read_nodes-set_field u status fields [] new.0.0 new.0.1)
          (elim (Result-cases (read_nodes parsers fields [])) [
            | inl (e, raised) ↦ rw raised refl
            | inr (r, read) ↦ rw read refl
          ])

  -- What is written is read back, key for key and in the same order.
  pub read_nodes-written :
      (d : Dict NodeId NodeStatus)
      → HasDistinctNodes d
      → All (λ e. Reads parsers e.0) d
      → read_nodes parsers (node_fields d end) [] ≡ ok d
  unfolding AllNew read_nodes
  read_nodes-written d distinct reads =
      read_nodes-node_fields d end distinct (
        All-map (λ e. Reads parsers e.0)
          (λ e. Reads parsers e.0 × (field_of (uuid_text e.0) end ≡ none)) d (λ e r. (r, refl))
          reads)
      ∙ ap ok (insert_each_lem d distinct)
