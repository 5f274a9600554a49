-- ===== src/Compact/Lists.antt =====
-- The merge on lists of entries in place of files.
use sisyphus_db.Prelude.{
  ℕ, zero, suc, ◌+◌, ◌≡◌, ◌⊎◌, refl, sym, ap, ◌∙◌, Bool, true, false, Bool-cases, inl, inr, List,
  [], ◌∷◌, Option, none, some, length, Bytes, All,
}
use sisyphus_db.Prelude.{
  if◌then◌else◌, ◌&&◌, bytes_eq, bytes_lt, bytes_lt_irrefl, bytes_lt_asymm, bytes_lt_trans_le,
  Found, missing, tombstone, value,
}
use mathlib.Core.Path.{subst}
use sisyphus_db.Sstable.Items.{Item, IsSorted, found_item}
use sisyphus_db.Compact.{lesser}
use sisyphus_db.Compact.Ends.{lesser_cases}

-- What a list says of a key.
abbrev pub found_in : Bytes → List Item → Found
found_in key [] = missing
found_in key (e ∷ es) =
    let rest = found_in key es in if bytes_eq e.key key then found_item e else rest

abbrev pub or_found : Found → Found → Found
or_found missing f = f
or_found tombstone f = tombstone
or_found (value v) f = value v

-- What the first list that has the key says of it.
abbrev pub first_found : Bytes → List (List Item) → Found
first_found key [] = missing
first_found key (es ∷ ls) = or_found (found_in key es) (first_found key ls)

-- The bottom level has no tombstones.
abbrev pub live : Bool → Found → Found
live false f = f
live true missing = missing
live true tombstone = missing
live true (value v) = value v

abbrev pub least_of : Option Bytes → List (List Item) → Option Bytes
least_of acc [] = acc
least_of acc ([] ∷ ls) = least_of acc ls
least_of acc ((e ∷ es) ∷ ls) = least_of (lesser e.key acc) ls

abbrev pub winner_of : Bytes → List (List Item) → Option Item
winner_of key [] = none
winner_of key ([] ∷ ls) = winner_of key ls
winner_of key ((e ∷ es) ∷ ls) =
    let rest = winner_of key ls in
    if bytes_eq e.key key
    then some (record { key = key; value = e.value; is_tombstone = e.is_tombstone })
    else rest

abbrev pub drop_key : Bytes → List Item → List Item
drop_key key [] = []
drop_key key (e ∷ es) = if bytes_eq e.key key then es else e ∷ es

abbrev pub advance_of : Bytes → List (List Item) → List (List Item)
advance_of key [] = []
advance_of key (es ∷ ls) = drop_key key es ∷ advance_of key ls

abbrev pub keep : Bool → Option Item → List Item → List Item
keep is_bottom none rest = rest
keep is_bottom (some e) rest = if e.is_tombstone && is_bottom then rest else e ∷ rest

abbrev pub merged : ℕ → Bool → List (List Item) → List Item
merged zero is_bottom ls = []
merged (suc fuel) is_bottom ls = elim (least_of none ls) [
  | none ↦ []
  | some key ↦ keep is_bottom (winner_of key ls) (merged fuel is_bottom (advance_of key ls))
]

abbrev pub total : List (List Item) → ℕ
total [] = 0
total (es ∷ ls) = length es + total ls

-- Some list begins with the key.
abbrev pub Begins : Bytes → List (List Item) → Type 0
Begins key [] = ⊥
Begins key ([] ∷ ls) = Begins key ls
Begins key ((e ∷ es) ∷ ls) = (e.key ≡ key) ⊎ Begins key ls

abbrev pub NotBelow : Bytes → List Item → Type 0
NotBelow key es = All (λ e. bytes_lt e.key key ≡ false) es

abbrev pub Above : Bytes → List Item → Type 0
Above key es = All (λ e. bytes_lt key e.key ≡ true) es

le_trans : (a b c : Bytes) → bytes_lt b a ≡ false → bytes_lt c b ≡ false → bytes_lt c a ≡ false
le_trans a b c h k = elim (Bool-cases (bytes_lt c a)) [
  | inr ge ↦ ge
  | inl lt ↦ absurd (let bad = bytes_lt_trans_le b c a k lt in cc)
]

-- The least key is not above the one that the search began with.
abbrev Bounds : Option Bytes → Bytes → Type 0
Bounds none key = Unit
Bounds (some k) key = bytes_lt k key ≡ false

lesser-lt : (k a : Bytes) → bytes_lt k a ≡ true → lesser k (some a) ≡ some k
unfolding lesser
lesser-lt k a lt = rw (lt, lesser) refl

lesser-ge : (k a : Bytes) → bytes_lt k a ≡ false → lesser k (some a) ≡ some a
unfolding lesser
lesser-ge k a ge = rw (ge, lesser) refl

Bounds-lesser :
    (k : Bytes) (acc : Option Bytes) (key : Bytes)
    → Bounds (lesser k acc) key
    → (bytes_lt k key ≡ false) × Bounds acc key
unfolding lesser
Bounds-lesser k none key h = (h, tt)
Bounds-lesser k (some a) key h = elim (Bool-cases (bytes_lt k a)) [
  | inl lt ↦
      let h' : bytes_lt k key ≡ false = subst (λ o. Bounds o key) (lesser-lt k a lt) h in
      (h', le_trans key k a h' (bytes_lt_asymm k a lt))
  | inr ge ↦
      let h' : bytes_lt a key ≡ false = subst (λ o. Bounds o key) (lesser-ge k a ge) h in
      (le_trans key a k h' ge, h')
]

-- A sorted list whose first key is not below another has no key below it.
NotBelow-head :
    (key : Bytes) (e : Item) (es : List Item)
    → bytes_lt e.key key ≡ false
    → IsSorted (e ∷ es)
    → NotBelow key (e ∷ es)
NotBelow-head key e es h sorted = (h, tail_not_below es sorted.0)
  where
    tail_not_below : (xs : List Item) → All (λ x. bytes_lt e.key x.key ≡ true) xs → NotBelow key xs
    tail_not_below [] k = tt
    tail_not_below (x ∷ xs) k =
        (le_trans key e.key x.key h (bytes_lt_asymm e.key x.key k.0), tail_not_below xs k.1)

pub least_of-NotBelow :
    (acc : Option Bytes) (ls : List (List Item)) (key : Bytes)
    → All IsSorted ls
    → least_of acc ls ≡ some key
    → Bounds acc key × All (NotBelow key) ls
least_of-NotBelow none [] key h e = absurd (cc)
least_of-NotBelow (some a) [] key h e =
    let same : a ≡ key = cc in (ap (λ k. bytes_lt k key) same ∙ bytes_lt_irrefl key, tt)
least_of-NotBelow acc ([] ∷ ls) key h e =
    let (bound, all) = least_of-NotBelow acc ls key h.1 e in (bound, (tt, all))
least_of-NotBelow acc ((x ∷ es) ∷ ls) key h e =
    let (bound, all) = least_of-NotBelow (lesser x.key acc) ls key h.1 e in
    let (head, bound') = Bounds-lesser x.key acc key bound in
    (bound', (NotBelow-head key x es head h.0, all))

pub least_of-Begins :
    (acc : Option Bytes) (ls : List (List Item)) (key : Bytes)
    → least_of acc ls ≡ some key
    → (acc ≡ some key) ⊎ Begins key ls
least_of-Begins acc [] key e = inl e
least_of-Begins acc ([] ∷ ls) key e = least_of-Begins acc ls key e
least_of-Begins acc ((x ∷ es) ∷ ls) key e = elim (least_of-Begins (lesser x.key acc) ls key e) [
  | inr later ↦ inr (inr later)
  | inl same ↦ elim (lesser_cases x.key acc) [
    | inl new ↦ inr (inl (cc))
    | inr old ↦ inl (sym old ∙ same)
  ]
]

least_of-none : (k : Bytes) (ls : List (List Item)) → (o : Bytes) × (least_of (some k) ls ≡ some o)
least_of-none k [] = (k, refl)
least_of-none k ([] ∷ ls) = least_of-none k ls
least_of-none k ((x ∷ es) ∷ ls) = elim (Bool-cases (bytes_lt x.key k)) [
  | inl lt ↦ rw (lesser-lt x.key k lt) (least_of-none x.key ls)
  | inr ge ↦ rw (lesser-ge x.key k ge) (least_of-none k ls)
]

-- With no least key all lists are at their end.
pub least_of-empty :
    (ls : List (List Item)) → least_of none ls ≡ none → (key : Bytes) → first_found key ls ≡ missing
unfolding lesser
least_of-empty [] e key = refl
least_of-empty ([] ∷ ls) e key = least_of-empty ls e key
least_of-empty ((x ∷ es) ∷ ls) e key =
    absurd (let (o, some_key) = least_of-none x.key ls in let both = sym some_key ∙ e in cc)
