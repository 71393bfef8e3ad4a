-- ===== src/Rewrite/Bounds.antt =====
-- What the cache promises of its size, its order and its answers.
use token_terminator.Common.{
  ℕ, suc, ◌+◌, ◌-◌, ◌≤◌, String, ◌≡◌, refl, ap, true, none, some, List, [], ◌∷◌, ◌++◌, arith,
  length, length-append, ltb, if◌then◌else◌, is_some, str_eq, eq_iff, eq_refl, Bool-cases,
  Option-cases, inl, inr,
}
use token_terminator.Rewrite.{Rewritten, Item, Cache, find_item, remove, get, trim, put}

abbrev pub new_item : ℕ → String → Rewritten → Item
new_item now key result = record { key = key; created = now; result = result }

-- No two items are of one key.
abbrev pub IsDistinct : List Item → Type 0
IsDistinct [] = Unit
IsDistinct (i ∷ is) = (find_item i.key is ≡ none) × IsDistinct is

-- The dictionary is one, and within its size.
pub record IsBounded (c : Cache) : Type 0 where
  pub distinct : IsDistinct c.items
  pub few : length c.items ≤ c.max_size

find_item-key : (key : String) (is : List Item) (i : Item) → find_item key is ≡ some i → i.key ≡ key
unfolding find_item
find_item-key key [] i h = absurd (ground arith)
find_item-key key (j ∷ is) i h = ground (arith, find_item-key key is i, eq_iff j.key key)

find_item-append :
    (key : String) (is : List Item) (i : Item)
    → find_item key (is ++ i ∷ []) ≡ (
        if is_some (find_item key is)
        then find_item key is
        else if str_eq i.key key
        then some i
        else none)
unfolding find_item
find_item-append key [] i = refl
find_item-append key (j ∷ is) i = ground (arith, find_item-append key is i)

find_item-remove :
    (key other : String) (is : List Item)
    → IsDistinct is
    → find_item other (remove key is) ≡ (if str_eq key other then none else find_item other is)
unfolding find_item remove
find_item-remove key other [] h = ground arith
find_item-remove key other (i ∷ is) h = ground (
  arith,
  find_item-remove key other is,
  eq_iff i.key key,
  eq_iff i.key other,
  eq_iff key other,
  h.0,
  h.1,
)

remove-IsDistinct : (key : String) (is : List Item) → IsDistinct is → IsDistinct (remove key is)
unfolding remove
remove-IsDistinct key [] h = tt
remove-IsDistinct key (i ∷ is) h = elim (Bool-cases (str_eq i.key key)) [
  | inl here ↦ rw here h.1
  | inr later ↦
      rw later
        (ground (arith, find_item-remove key i.key is h.1, h.0), remove-IsDistinct key is h.1)
]

append-IsDistinct :
    (is : List Item) (i : Item)
    → IsDistinct is
    → find_item i.key is ≡ none
    → IsDistinct (is ++ i ∷ [])
unfolding find_item
append-IsDistinct [] i h fresh = (refl, tt)
append-IsDistinct (j ∷ is) i h fresh = (
  ground (arith, find_item-append j.key is i, h.0, eq_iff j.key i.key, eq_iff i.key j.key),
  append-IsDistinct is i h.1 (ground arith),
)

trim-IsDistinct : (n : ℕ) (is : List Item) → IsDistinct is → IsDistinct (trim n is)
unfolding trim
trim-IsDistinct n [] h = tt
trim-IsDistinct n (i ∷ is) h = elim (Bool-cases (ltb n (suc (length is)))) [
  | inl over ↦ rw over (trim-IsDistinct n is h.1)
  | inr fits ↦ rw fits h
]

length-trim : (n : ℕ) (is : List Item) → length (trim n is) ≤ n
unfolding trim
length-trim n [] = omega arith
length-trim n (i ∷ is) = ground (arith, length-trim n is)

length-remove :
    (key : String) (is : List Item)
    → length (remove key is) + (if is_some (find_item key is) then 1 else 0) ≡ length is
unfolding remove find_item
length-remove key [] = refl
length-remove key (i ∷ is) = ground (arith, length-remove key is)

-- Every use of the cache keeps it a dictionary of at most `max_size` items: a lookup, which refreshes an
-- item or drops an expired one, and an insertion, which evicts.
pub cache-IsBounded :
    (now : ℕ) (key : String) (result : Rewritten) (c : Cache)
    → IsBounded c
    → IsBounded (get now key c).1 × IsBounded (put now key result c)
unfolding get put
cache-IsBounded now key result c h = (
  elim (Option-cases (find_item key c.items)) [
    | inl absent ↦ rw (get, absent) h
    | inr (i, found) ↦ elim (Bool-cases (ltb c.ttl (now - i.created))) [
      | inl expired ↦
          rw (get, found, expired)
            (record {
              distinct = remove-IsDistinct key c.items h.distinct;
              few = omega (arith, rw found at (length-remove key c.items), h.few);
            })
      | inr alive ↦
          rw (get, found, alive)
            (record {
              distinct =
                  append-IsDistinct (remove key c.items) i
                    (remove-IsDistinct key c.items h.distinct)
                    (ground (
                      arith,
                      find_item-remove key i.key c.items h.distinct,
                      find_item-key key c.items i found,
                      eq_refl key,
                      eq_iff key i.key,
                    ));
              few = omega (
                arith,
                rw found at (length-remove key c.items),
                length-append (remove key c.items) (i ∷ []),
                h.few,
              );
            })
    ]
  ],
  record {
    distinct = trim-IsDistinct c.max_size (remove key c.items ++ new_item now key result ∷ []) (
        append-IsDistinct (remove key c.items) (new_item now key result)
          (remove-IsDistinct key c.items h.distinct)
          (ground (arith, find_item-remove key key c.items h.distinct, eq_refl key)));
    few = length-trim c.max_size (remove key c.items ++ new_item now key result ∷ []);
  },
)

find_item-trim :
    (n : ℕ) (key : String) (is : List Item) (i : Item)
    → 1 ≤ n
    → str_eq i.key key ≡ true
    → find_item key is ≡ none
    → find_item key (trim n (is ++ i ∷ [])) ≡ some i
unfolding find_item trim
find_item-trim n key [] i positive named absent = ground arith
find_item-trim n key (j ∷ is) i positive named absent =
    ground (arith, find_item-trim n key is i, find_item-append key is i)

-- A lookup after an insertion finds exactly what was put, marked as a hit, until its time to live is
-- over, and nothing from then on; the size must allow one item.
pub get-put :
    (now later : ℕ) (key : String) (result : Rewritten) (c : Cache)
    → IsBounded c
    → 1 ≤ c.max_size
    → (get later key (put now key result c)).0
      ≡ (if ltb c.ttl (later - now) then none else some (record result { cache_hit = true }))
unfolding get put
get-put now later key result c h positive =
    let found =
      find_item-trim c.max_size key (remove key c.items) (new_item now key result) positive
        (eq_refl key) (ground (arith, find_item-remove key key c.items h.distinct, eq_refl key)) in
    rw (get, put, found) (ground arith)

trim_all : (n : ℕ) (is : List Item) → length is ≤ n → trim n is ≡ is
unfolding trim
trim_all n [] h = refl
trim_all n (i ∷ is) h = ground arith

remove_absent : (key : String) (is : List Item) → find_item key is ≡ none → remove key is ≡ is
unfolding remove find_item
remove_absent key [] h = refl
remove_absent key (i ∷ is) h = ground (arith, remove_absent key is)

-- A new key in a full cache takes the place of exactly the item that was used least recently; the others
-- stay in their order.
put_full :
    (now : ℕ) (key : String) (result : Rewritten) (c : Cache) (oldest : Item) (others : List Item)
    → c.items ≡ oldest ∷ others
    → length c.items ≡ c.max_size
    → find_item key c.items ≡ none
    → (put now key result c).items ≡ others ++ new_item now key result ∷ []
unfolding put trim
put_full now key result c oldest others same full absent =
    let new = new_item now key result in
    let long = length-append others (new ∷ []) in
    rw (remove_absent key c.items absent) (
      rw same (
        let over : ltb c.max_size (suc (length (others ++ new ∷ []))) ≡ true =
          ground (arith, long, full, ap length same) in
        rw over
          (trim_all c.max_size (others ++ new ∷ []) (omega (arith, long, full, ap length same)))))
