-- ===== src/Dfu/SlotTable.antt =====
-- include/smply/groups/image.hpp and src/groups/image/image_management.cpp: the slot table of a
-- device. A pointer into the table is the slot with its position, so two of them are the same
-- pointer exactly when their positions are equal.
use smply.Prelude.{
  ℕ, zero, suc, ◌+◌, Bool, true, false, ◌&&◌, ◌||◌, not, Option, none, some, List, [], ◌∷◌, ◌==◌,
  if◌then◌else◌,
}
use smply.Error.{Error}
use smply.Image.Values.{ImageHash}

pub record ImageSlot : Type 0 where
  pub image : ℕ
  pub slot : ℕ
  pub version : List ℕ
  pub hash : Option ImageHash
  pub bootable : Bool
  pub pending : Bool
  pub confirmed : Bool
  pub active : Bool
  pub permanent : Bool

-- Without `split_status`, which is carried and never read.
pub record ImageState : Type 0 where
  pub slots : List ImageSlot

pub record SlotPointer : Type 0 where
  pub position : ℕ
  pub slot : ImageSlot

-- `std::equal` on the first `count` bytes of two arrays of 64.
abbrev pub equal_prefix : ℕ → List ℕ → List ℕ → Bool
equal_prefix zero xs ys = true
equal_prefix (suc count) [] ys = true
equal_prefix (suc count) (x ∷ xs) [] = true
equal_prefix (suc count) (x ∷ xs) (y ∷ ys) = x == y && equal_prefix count xs ys

unfoldable pub same_hash : ImageHash → ImageHash → Bool
same_hash lhs rhs = lhs.size == rhs.size && equal_prefix lhs.size lhs.contents rhs.contents

unfoldable pub find_from : (ImageSlot → Bool) → ℕ → List ImageSlot → Option SlotPointer
find_from test position [] = none
find_from test position (slot ∷ slots) =
    let rest = find_from test (position + 1) slots in
    if test slot then some (record { position = position; slot = slot }) else rest

unfoldable pub find_slot : (ImageSlot → Bool) → ImageState → Option SlotPointer
find_slot test state = find_from test 0 state.slots

abbrev pub has_hash : ImageHash → ImageSlot → Bool
has_hash hash slot = elim slot.hash [ none ↦ false | some reported ↦ same_hash reported hash ]

unfoldable pub active_slot : ℕ → ImageState → Option SlotPointer
active_slot image = find_slot (λ slot. slot.image == image && slot.active)

unfoldable pub secondary : ℕ → ImageState → Option SlotPointer
secondary image = find_slot (λ slot. slot.image == image && not slot.active)

unfoldable pub find_by_hash : ImageHash → ImageState → Option SlotPointer
find_by_hash hash = find_slot (has_hash hash)

abbrev pub group_image : ℕ
group_image = 1

abbrev pub image_already_pending : ℕ
image_already_pending = 28

unfoldable pub image_error : Error → Option ℕ
image_error e = elim e.mgmt [
  | none ↦ none
  | some m ↦ if not m.group_scoped || not (m.group == group_image) then none else some m.rc
]
