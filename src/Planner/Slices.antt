-- ===== src/Planner/Slices.antt =====
-- internal/planner/planner.go, sliceSize and the loop of Build around it.
use diffdossier.Prelude.{
  ℕ, zero, suc, ◌+◌, ◌≤◌, String, true, false, ◌||◌, List, [], ◌∷◌, ◌++◌, map, ltb, leb, length,
  take, drop, take-append-drop, length-drop, Bool-cases, inl, inr, string_in, string_in-separates,
  ◌≡◌, refl, sym, subst, ap, ap₂, ◌∙◌, arith,
}
use diffdossier.Inventory.{Entry}
use diffdossier.Planner.{
  Limits, entry_path, entry_bytes, slice_loop, slice_size, slices, group_slices,
}

abbrev pub bytes_of : List Entry → ℕ
bytes_of [] = 0
bytes_of (entry ∷ rest) = entry_bytes entry + bytes_of rest

-- The first of the entries left has a path that is in neither list.
abbrev pub IsFresh : List String → List Entry → List Entry → Type 0
IsFresh seen taken [] = Unit
IsFresh seen taken (y ∷ rest) =
    (string_in (entry_path y) seen ≡ false)
    × (string_in (entry_path y) (map entry_path taken) ≡ false)

IsFresh-known :
    (seen : List String) (entry : Entry) (taken left : List Entry)
    → string_in (entry_path entry) seen ≡ true
    → IsFresh seen taken left
    → IsFresh seen (entry ∷ taken) left
unfolding string_in
IsFresh-known seen entry taken [] h f = tt
IsFresh-known seen entry taken (y ∷ rest) h f =
    (f.0, ground (arith, f.1, string_in-separates (entry_path entry) (entry_path y) seen h f.0))

IsFresh-new :
    (seen : List String) (entry : Entry) (taken left : List Entry)
    → IsFresh (entry_path entry ∷ seen) taken left
    → IsFresh seen (entry ∷ taken) left
unfolding string_in
IsFresh-new seen entry taken [] f = tt
IsFresh-new seen entry taken (y ∷ rest) f = (ground (arith, f), ground (arith, f))

-- The loop takes some of the entries, adds up their bytes, and stops before a new path only.
abbrev Sliced : Limits → List String → ℕ → ℕ → List Entry → Type 0
Sliced limits seen count total entries =
    (n : ℕ) × (slice_loop limits seen count total entries
      ≡ (count + n, total + bytes_of (take n entries)))
    × IsFresh seen (take n entries) (drop n entries)

slice_loop-Sliced :
    (limits : Limits) (seen : List String) (count total : ℕ) (entries : List Entry)
    → Sliced limits seen count total entries
unfolding slice_loop string_in
slice_loop-Sliced limits seen count total [] =
    (0, ap₂ (λ a b. (a, b)) (omega arith) (omega arith), tt)
slice_loop-Sliced limits seen count total (entry ∷ rest) =
    elim (Bool-cases (string_in (entry_path entry) seen)) [
      | inl e ↦
          let (n, same, fresh) =
            slice_loop-Sliced limits seen (suc count) (total + entry_bytes entry) rest in
          (
            suc n,
            rw e (same ∙ ap₂ (λ a b. (a, b)) (omega arith) (omega arith)),
            IsFresh-known seen entry (take n rest) (drop n rest) e fresh,
          )
      | inr e ↦
          elim (Bool-cases (
            leb limits.max_files (length seen)
            || ltb limits.max_packet_bytes (total + entry_bytes entry))) [
              | inl s ↦ (0, rw (e, s) (ap₂ (λ a b. (a, b)) (omega arith) (omega arith)), (e, refl))
              | inr s ↦
                  let (n, same, fresh) =
                    slice_loop-Sliced limits (entry_path entry ∷ seen) (suc count)
                      (total + entry_bytes entry) rest in
                  (
                    suc n,
                    rw (e, s) (same ∙ ap₂ (λ a b. (a, b)) (omega arith) (omega arith)),
                    IsFresh-new seen entry (take n rest) (drop n rest) fresh,
                  )
            ]
    ]

-- The slices in order make the entries, each is not empty and has its bytes added up, and none
-- ends within a path.
abbrev pub IsSlicing : List (List Entry × ℕ) → List Entry → Type 0
IsSlicing [] entries = entries ≡ []
IsSlicing (p ∷ rest) entries =
    (left : List Entry) × (first : Entry) × (others : List Entry) × (entries ≡ p.0 ++ left)
    × (p.0 ≡ first ∷ others)
    × (p.1 ≡ bytes_of p.0)
    × IsFresh [] p.0 left
    × IsSlicing rest left

slices-IsSlicing :
    (fuel : ℕ) (limits : Limits) (entries : List Entry)
    → length entries ≤ fuel
    → IsSlicing (slices fuel limits entries) entries
unfolding slices slice_size
slices-IsSlicing zero limits [] h = refl
slices-IsSlicing zero limits (entry ∷ rest) h = absurd (omega arith)
slices-IsSlicing (suc fuel) limits [] h = refl
slices-IsSlicing (suc fuel) limits (entry ∷ rest) h =
    let (n, same, fresh) =
      slice_loop-Sliced limits (entry_path entry ∷ []) 1 (entry_bytes entry) rest in
    let size : slice_size limits entry rest ≡ (suc n, bytes_of (entry ∷ take n rest)) =
      same ∙ ap₂ (λ a b. (a, b)) (omega arith) refl in
    subst
      (λ (p : ℕ × ℕ).
        IsSlicing ((take p.0 (entry ∷ rest), p.1) ∷ slices fuel limits (drop p.0 (entry ∷ rest)))
          (entry ∷ rest))
      (sym size)
      (
        drop n rest,
        entry,
        take n rest,
        ap (λ tail. entry ∷ tail) (sym (take-append-drop n rest)),
        refl,
        refl,
        IsFresh-new [] entry (take n rest) (drop n rest) fresh,
        slices-IsSlicing fuel limits (drop n rest) (omega (arith, h, length-drop n rest)),
      )

-- The slices of a group: in order they make its entries, none is empty, each has the bytes of its
-- entries as its total, and the entry behind a slice has a path that the slice has not.
pub group_slices-IsSlicing :
    (limits : Limits) (entries : List Entry) → IsSlicing (group_slices limits entries) entries
group_slices-IsSlicing limits entries =
    slices-IsSlicing (length entries) limits entries (omega arith)
