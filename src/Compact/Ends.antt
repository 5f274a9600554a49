-- ===== src/Compact/Ends.antt =====
-- The merge ends, whatever the files hold.
use sisyphus_db.Prelude.{
  ℕ, zero, suc, ◌≤◌, ◌<◌, ◌≡◌, ◌⊎◌, refl, sym, ap, ◌∙◌, arith, Bool, true, false, Bool-cases,
  Option-cases, inl, inr, List, [], ◌∷◌, Option, none, some, Bytes,
}
use sisyphus_db.Prelude.{ok, bytes_eq, bytes_eq_refl, bytes_lt, ◌&&◌}
use sisyphus_db.Bloom.Bounds.{IsFilter}
use sisyphus_db.Sstable.{Builder, SstableIterator}
use sisyphus_db.Sstable.RoundTrip.{add_item-some}
use sisyphus_db.Sstable.Items.{Item}
use sisyphus_db.Compact.{lesser, least, winner, advance, remaining, emit, merge}
use sisyphus_db.Compact.Steps.{left, next-left, moved-same, moved-left}

advance-remaining :
    (key : Bytes) (its : List SstableIterator) → remaining (advance key its) ≤ remaining its
unfolding remaining advance
advance-remaining key [] = omega arith
advance-remaining key (it ∷ its) = omega (arith, moved-left key it, advance-remaining key its)

-- An iterator stands at the key.
abbrev pub At : Bytes → List SstableIterator → Type 0
At key [] = ⊥
At key (it ∷ its) = ((it.valid ≡ true) × (it.key ≡ key)) ⊎ At key its

advance-At :
    (key : Bytes) (its : List SstableIterator)
    → At key its
    → remaining (advance key its) < remaining its
unfolding remaining advance
advance-At key [] here = absurd here
advance-At key (it ∷ its) (inl (valid, same)) =
    let step = moved-same key it valid (ap (λ k. bytes_eq k key) same ∙ bytes_eq_refl key) in
    omega (arith, ap left step, next-left it valid, advance-remaining key its)
advance-At key (it ∷ its) (inr later) = omega (arith, moved-left key it, advance-At key its later)

pub lesser_cases :
    (key : Bytes) (acc : Option Bytes) → (lesser key acc ≡ some key) ⊎ (lesser key acc ≡ acc)
unfolding lesser
lesser_cases key none = inl refl
lesser_cases key (some k) = elim (Bool-cases (bytes_lt key k)) [
  | inl lt ↦ inl (rw (lt, lesser) refl)
  | inr ge ↦ inr (rw (ge, lesser) refl)
]

pub least-valid :
    (acc : Option Bytes) (it : SstableIterator) (its : List SstableIterator)
    → it.valid ≡ true
    → least acc (it ∷ its) ≡ least (lesser it.key acc) its
unfolding least
least-valid acc it its valid = simp valid refl

pub least-invalid :
    (acc : Option Bytes) (it : SstableIterator) (its : List SstableIterator)
    → it.valid ≡ false
    → least acc (it ∷ its) ≡ least acc its
unfolding least
least-invalid acc it its invalid = simp invalid refl

least-At :
    (acc : Option Bytes) (its : List SstableIterator) (key : Bytes)
    → least acc its ≡ some key
    → (acc ≡ some key) ⊎ At key its
unfolding least
least-At acc [] key e = inl e
least-At acc (it ∷ its) key e = elim (Bool-cases it.valid) [
  | inr invalid ↦ elim (least-At acc its key (sym (least-invalid acc it its invalid) ∙ e)) [
    | inl same ↦ inl same
    | inr later ↦ inr (inr later)
  ]
  | inl valid ↦
      elim (least-At (lesser it.key acc) its key (sym (least-valid acc it its valid) ∙ e)) [
        | inr later ↦ inr (inr later)
        | inl same ↦ elim (lesser_cases it.key acc) [
          | inl new ↦ inr (inl (valid, cc))
          | inr old ↦ inl (sym old ∙ same)
        ]
      ]
]

module _ (sum64 : Bytes → ℕ) where
  pub emit-some :
      (is_bottom : Bool) (e : Option Item) (b : Builder)
      → IsFilter b.filter
      → (b' : Builder) × (emit sum64 is_bottom e b ≡ some b') × IsFilter b'.filter
  unfolding emit
  emit-some is_bottom none b h = (b, refl, h)
  emit-some is_bottom (some e) b h = elim (Bool-cases (e.is_tombstone && is_bottom)) [
    | inl skipped ↦ (b, rw (skipped, emit) refl, h)
    | inr kept ↦
        let (b', added, file, h') = add_item-some sum64 e b h in (b', rw (kept, emit) added, h')
  ]

  pub merge-none :
      (fuel : ℕ) (is_bottom : Bool) (its : List SstableIterator) (b : Builder)
      → least none its ≡ none
      → merge sum64 (suc fuel) is_bottom its b ≡ ok b
  unfolding merge
  merge-none fuel is_bottom its b e = rw (e, merge) refl

  pub merge-some :
      (fuel : ℕ) (is_bottom : Bool) (its : List SstableIterator) (b b' : Builder) (key : Bytes)
      → least none its ≡ some key
      → emit sum64 is_bottom (winner key its) b ≡ some b'
      → merge sum64 (suc fuel) is_bottom its b ≡ merge sum64 fuel is_bottom (advance key its) b'
  unfolding merge
  merge-some fuel is_bottom its b b' key e added = rw (e, added, merge) refl

  -- The merge of `CheckAndCompact` ends with a table, from any iterators, on files of any contents: each
  -- round reads at least the header of an entry, so that one round more than there are bytes and
  -- iterators is enough. The condition is a valid filter in the builder.
  pub merge_ends :
      (fuel : ℕ) (is_bottom : Bool) (its : List SstableIterator) (b : Builder)
      → IsFilter b.filter
      → remaining its < fuel
      → (b' : Builder) × (merge sum64 fuel is_bottom its b ≡ ok b')
  merge_ends zero is_bottom its b h lt = absurd (omega (arith, lt))
  merge_ends (suc fuel) is_bottom its b h lt = elim (Option-cases (least none its)) [
    | inl e ↦ (b, merge-none fuel is_bottom its b e)
    | inr (key, e) ↦
        let (b', added, h') = emit-some is_bottom (winner key its) b h in
        let at : At key its = elim (least-At none its key e) [
          | inl never ↦ absurd (cc)
          | inr at ↦ at
        ] in
        let (b'', done) =
          merge_ends fuel is_bottom (advance key its) b' h'
            (omega (arith, lt, advance-At key its at)) in
        (b'', merge-some fuel is_bottom its b b' key e added ∙ done)
  ]
