-- ===== src/Memory/Session.antt =====
-- `async with unit_of_work_factory.create() as unit_of_work`: the calls of a body in sequence, and
-- the transaction around it.
use engram_mesh.Common.{Option, none, some}
use engram_mesh.Common.Result.{Result, ok, err}
use engram_mesh.Memory.Database.{Database}
use engram_mesh.Memory.UnitOfWork.{Action, Session, new_unit_of_work, enter, exit}

infixl 5 ◌>>=◌ ◌>>◌
abbrev pub ◌>>=◌ : {A B : Type 0} → Action A → (A → Action B) → Action B
◌>>=◌ m f s = let (r, s') = m s in elim r [ ok a ↦ f a s' | err e ↦ (err e, s') ]

abbrev pub ◌>>◌ : {A B : Type 0} → Action A → Action B → Action B
m >> k = m >>= λ _. k

-- A result of the part of a body that touches no state.
abbrev pub lift : {A : Type 0} → Result A → Action A
lift r s = (r, s)

-- `__aexit__` returns None, so that an exception of the body goes on; its own takes the place of it.
abbrev pub leave : {A : Type 0} → Result A → Session → Result A × Database
leave r s =
    let (left, s') = exit s in elim left [ ok _ ↦ (r, s'.database) | err e ↦ (err e, s'.database) ]

unfoldable pub with_unit_of_work : {A : Type 0} → Action A → Database → Option (Result A × Database)
unfolding enter exit
with_unit_of_work body database =
    elim (enter (record { database = database; unit_of_work = new_unit_of_work })) [
      | none ↦ none
      | some (err e, s) ↦ some (err e, s.database)
      | some (ok _, s) ↦ let (r, s') = body s in some (leave r s')
    ]
