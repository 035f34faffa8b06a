-- ===== src/Kernel/Object/Handles.antt =====
-- kernel/object.rs, `ObjectTable`: reference-counted objects by handle. A handle is a u64, and a count
-- is a usize of 64 bits.
use axebergos.Prelude.{
  ℕ, ◌+◌, ◌-◌, ◌%◌, Bool, true, false, ◌==◌, number_key, [], Option, none, some, if◌then◌else◌,
  map_option,
}
use axebergos.Prelude.Words.{u64_mod}
use axebergos.Prelude.Table
use axebergos.Prelude.Table.{Table}

pub record ObjectEntry (T : Type 0) : Type 0 where
  pub object : T
  pub refcount : ℕ

pub record ObjectTable (T : Type 0) : Type 0 where
  pub next_id : ℕ
  pub objects : Table ℕ (ObjectEntry T)

module _ {T : Type 0} where
  unfoldable pub new_table : ObjectTable T
  new_table = record { next_id = 1; objects = [] }

  unfoldable pub insert : ObjectTable T → T → ObjectTable T × ℕ
  insert t obj =
      let handle = t.next_id in
      (
        record {
          next_id = (t.next_id + 1) % u64_mod;
          objects = Table.insert handle (record { object = obj; refcount = 1 }) t.objects;
        },
        handle,
      )

  unfoldable pub retain : ObjectTable T → ℕ → ObjectTable T × Bool
  retain t handle = elim (Table.get handle t.objects) [
    | none ↦ (t, false)
    | some entry ↦ (
      record t {
        objects =
            Table.insert handle (record entry { refcount = (entry.refcount + 1) % u64_mod })
              t.objects;
      },
      true,
    )
  ]

  -- `saturating_sub` is the subtraction of the naturals.
  unfoldable pub release : ObjectTable T → ℕ → ObjectTable T × Option T
  release t handle = elim (Table.get handle t.objects) [
    | none ↦ (t, none)
    | some entry ↦
        let left = entry.refcount - 1 in
        if left == 0
        then (record t { objects = Table.remove handle t.objects }, some entry.object)
        else (
          record t { objects = Table.insert handle (record entry { refcount = left }) t.objects },
          none,
        )
  ]

  abbrev pub or_zero : Option (ObjectEntry T) → ℕ
  or_zero none = 0
  or_zero (some entry) = entry.refcount

  unfoldable pub refcount : ObjectTable T → ℕ → ℕ
  refcount t handle = or_zero (Table.get handle t.objects)

  unfoldable pub get : ObjectTable T → ℕ → Option T
  get t handle = map_option (λ entry. entry.object) (Table.get handle t.objects)

  unfoldable pub contains : ObjectTable T → ℕ → Bool
  contains t handle = Table.contains_key handle t.objects

  -- A change through the reference that `get_mut` answers.
  unfoldable pub update : ObjectTable T → ℕ → (T → T) → ObjectTable T
  update t handle f = elim (Table.get handle t.objects) [
    | none ↦ t
    | some entry ↦ record t {
      objects = Table.insert handle (record entry { object = f entry.object }) t.objects;
    }
  ]
