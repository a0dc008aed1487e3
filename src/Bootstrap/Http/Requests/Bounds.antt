-- ===== src/Bootstrap/Http/Requests/Bounds.antt =====
-- bootstrap/http/mappers.py: the bounds of pages, and the actor.
use engram_mesh.Common.{String, Option, none, some, ◌≡◌, ◌↔◌, arith}
use engram_mesh.Common.Int.{ℤ, pos, ◌≤ℤ◌}
use engram_mesh.Common.Result.{ok}
use engram_mesh.Kernel.Ids.{UuidValue, SubjectId}
use engram_mesh.Memory.Scope.{memory_scope}
use engram_mesh.Memory.Query.{ListQuery, make_list_query}
use engram_mesh.Runtime.ListExecutions.{ListExecutionsQuery, list_executions_query}
use engram_mesh.Bootstrap.Auth.{AuthenticatedPrincipal}
use engram_mesh.Bootstrap.Http.Requests.{
  ReadRequest, read_scope, resolve_actor_id, to_list_episodes_query, to_list_claims_query,
  to_list_executions_query,
}

-- The actor of a request: the principal's, who must not name another, or the one that is named.
abbrev pub IsActor : Option AuthenticatedPrincipal → Option UuidValue → SubjectId → Type 0
IsActor (some principal) named actor_id = (named ≡ none) × (actor_id ≡ principal.actor_id)
IsActor none named actor_id = named ≡ some actor_id

pub resolve_actor_id_iff :
    (principal : Option AuthenticatedPrincipal) (named : Option UuidValue) (actor_id : SubjectId)
    → (resolve_actor_id principal named ≡ ok actor_id) ↔ IsActor principal named actor_id
unfolding resolve_actor_id
resolve_actor_id_iff (some principal) (some named) actor_id = ground arith
resolve_actor_id_iff (some principal) none actor_id = ground arith
resolve_actor_id_iff none (some named) actor_id = ground arith
resolve_actor_id_iff none none actor_id = ground arith

-- What the mappers of the lists ask of a request, apart from the fields that they copy.
abbrev pub IsListRequest : ReadRequest → ℤ → Option AuthenticatedPrincipal → SubjectId → Type 0
IsListRequest request limit principal actor_id =
    (pos 1 ≤ℤ limit)
    × (limit ≤ℤ pos 100)
    × IsActor principal request.actor_id actor_id
    × (memory_scope (read_scope request) ≡ ok (read_scope request))

-- The mapped query, for the episodes, the claims and the executions.
abbrev pub listed : ReadRequest → ℤ → Option String → SubjectId → ListQuery
listed request limit cursor actor_id = record {
  actor_id = actor_id;
  scope = read_scope request;
  limit = limit;
  cursor = cursor;
}

abbrev pub listed_executions : ReadRequest → ℤ → Option String → SubjectId → ListExecutionsQuery
listed_executions request limit cursor actor_id = record {
  actor_id = actor_id;
  scope = read_scope request;
  limit = limit;
  cursor = cursor;
}

-- Exactly which requests the mapper of the list of episodes takes, and to which query: the limit is from 1 to 100,
-- the actor is that of the request, and the scope is built of the path's tenant and the parameters.
pub to_list_episodes_query_iff :
    (request : ReadRequest) (limit : ℤ) (cursor : Option String)
    (principal : Option AuthenticatedPrincipal) (query : ListQuery)
    → (to_list_episodes_query request limit cursor principal ≡ ok query)
      ↔ IsListRequest request limit principal query.actor_id
        × (query ≡ listed request limit cursor query.actor_id)
unfolding to_list_episodes_query make_list_query memory_scope
to_list_episodes_query_iff request limit cursor principal query =
    ground (arith, resolve_actor_id_iff principal request.actor_id query.actor_id)

-- Exactly which requests the mapper of the list of claims takes, and to which query: the limit is from 1 to 100,
-- the actor is that of the request, and the scope is built of the path's tenant and the parameters.
pub to_list_claims_query_iff :
    (request : ReadRequest) (limit : ℤ) (cursor : Option String)
    (principal : Option AuthenticatedPrincipal) (query : ListQuery)
    → (to_list_claims_query request limit cursor principal ≡ ok query)
      ↔ IsListRequest request limit principal query.actor_id
        × (query ≡ listed request limit cursor query.actor_id)
unfolding to_list_claims_query make_list_query memory_scope
to_list_claims_query_iff request limit cursor principal query =
    ground (arith, resolve_actor_id_iff principal request.actor_id query.actor_id)

-- Exactly which requests the mapper of the list of executions takes, and to which query: the limit is from 1 to 100,
-- the actor is that of the request, and the scope is built of the path's tenant and the parameters.
pub to_list_executions_query_iff :
    (request : ReadRequest) (limit : ℤ) (cursor : Option String)
    (principal : Option AuthenticatedPrincipal) (query : ListExecutionsQuery)
    → (to_list_executions_query request limit cursor principal ≡ ok query)
      ↔ IsListRequest request limit principal query.actor_id
        × (query ≡ listed_executions request limit cursor query.actor_id)
unfolding to_list_executions_query list_executions_query memory_scope
to_list_executions_query_iff request limit cursor principal query =
    ground (arith, resolve_actor_id_iff principal request.actor_id query.actor_id)
