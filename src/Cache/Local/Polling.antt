-- ===== src/Cache/Local/Polling.antt =====
-- What a tick of the polling goroutine deletes.
use gotest.Common.{
  ℕ, zero, suc, ◌+◌, ◌≤◌, ◌≡◌, ◌≢◌, ◌⊎◌, ◌↔◌, ite, inl, inr, refl, sym, ◌∙◌, ap, subst, Option,
  none, some, Option-cases, List, [], ◌∷◌, Bool, true, false, Bool-cases, ltb, if◌then◌else◌,
  length, take, arith,
}
use gotest.Common.Text.{Text, text_discrete}
use gotest.Common.Dict
use gotest.Common.Dict.{HasDistinctKeys}
use gotest.Cache.Local.{BuildInMapCache, Item, deadline_before, delete, poll, poll_found}

length-take_le : {A : Type 0} (n : ℕ) (xs : List A) → length (take n xs) ≤ n
length-take_le zero xs = omega arith
length-take_le (suc n) [] = omega arith
length-take_le (suc n) (x ∷ xs) = omega (arith, length-take_le n xs)

module _ {V : Type 0} where
  -- What is left of a key's item at time `t`.
  unfoldable pub kept : ℕ → Option (Item V) → Option (Item V)
  kept t none = none
  kept t (some i) = if deadline_before i t then none else some i

  kept_if :
      (t : ℕ) (i : Item V) (e : Bool)
      → deadline_before i t ≡ e
      → kept t (if e then none else some i) ≡ (if e then none else some i)
  unfolding kept
  kept_if t i true h = refl
  kept_if t i false h = rw h refl

  kept_twice : (t : ℕ) (o : Option (Item V)) → kept t (kept t o) ≡ kept t o
  unfolding kept
  kept_twice t none = refl
  kept_twice t (some i) = kept_if t i (deadline_before i t) refl

-- A key is among those.
unfoldable pub IsAmong : Text → List Text → Type 0
IsAmong k [] = ⊥
IsAmong k (j ∷ keys) = (j ≡ k) ⊎ IsAmong k keys

-- Whether it is.
unfoldable pub is_among : Text → List Text → Bool
is_among k [] = false
is_among k (j ∷ keys) = ite (text_discrete j k) true (is_among k keys)

true_ne_false : ¬ (true ≡ false)
true_ne_false e = cc

is_among_iff : (k : Text) (keys : List Text) → (is_among k keys ≡ true) ↔ IsAmong k keys
unfolding is_among IsAmong
is_among_iff k [] = (λ e. true_ne_false (sym e), λ h. absurd h)
is_among_iff k (j ∷ keys) = ground (arith, is_among_iff k keys)

IsAmong-cases : (k : Text) (keys : List Text) → IsAmong k keys ⊎ (IsAmong k keys → ⊥)
unfolding IsAmong
IsAmong-cases k [] = inr (λ h. h)
IsAmong-cases k (j ∷ keys) = elim (text_discrete j k) [
  | yes h ↦ inl (inl h)
  | no h ↦ elim (IsAmong-cases k keys) [
    | inl g ↦ inl (inr g)
    | inr g ↦ inr (λ a. elim a [ inl x ↦ h x | inr x ↦ g x ])
  ]
]

module _ {V S : Type 0} where
  abbrev look : Text → BuildInMapCache V S → Option (Item V)
  look k b = Dict.get text_discrete k b.entries

  abbrev visit : ℕ → Text → BuildInMapCache V S → BuildInMapCache V S
  visit t key b = poll_found t key (look key b) b

  delete-HasDistinctKeys :
      (key : Text) (b : BuildInMapCache V S)
      → HasDistinctKeys b.entries
      → HasDistinctKeys (delete key b).entries
  unfolding delete
  delete-HasDistinctKeys key b d = elim (Option-cases (look key b)) [
    | inl h ↦ rw h d
    | inr (i, h) ↦ rw h (Dict.remove-HasDistinctKeys text_discrete key b.entries d)
  ]

  visit-HasDistinctKeys :
      (t : ℕ) (key : Text) (o : Option (Item V)) (b : BuildInMapCache V S)
      → HasDistinctKeys b.entries
      → HasDistinctKeys (poll_found t key o b).entries
  visit-HasDistinctKeys t key none b d = d
  visit-HasDistinctKeys t key (some i) b d = elim (Bool-cases (deadline_before i t)) [
    | inl h ↦ rw h (delete-HasDistinctKeys key b d)
    | inr h ↦ rw h d
  ]

  look-delete_ne :
      (k key : Text) (b : BuildInMapCache V S) → k ≢ key → look k (delete key b) ≡ look k b
  unfolding delete
  look-delete_ne k key b n = elim (Option-cases (look key b)) [
    | inl h ↦ rw h refl
    | inr (i, h) ↦ rw h (Dict.get-remove_ne text_discrete key b.entries k n)
  ]

  look-delete_self :
      (key : Text) (b : BuildInMapCache V S) (i : Item V)
      → HasDistinctKeys b.entries
      → look key b ≡ some i
      → look key (delete key b) ≡ none
  unfolding delete
  look-delete_self key b i d h = rw h (Dict.get-remove_self text_discrete key b.entries d)

  look-visit_ne :
      (t : ℕ) (k key : Text) (o : Option (Item V)) (b : BuildInMapCache V S)
      → k ≢ key
      → look k (poll_found t key o b) ≡ look k b
  look-visit_ne t k key none b n = refl
  look-visit_ne t k key (some i) b n = elim (Bool-cases (deadline_before i t)) [
    | inl h ↦ rw h (look-delete_ne k key b n)
    | inr h ↦ rw h refl
  ]

  look-visit_self :
      (t : ℕ) (key : Text) (o : Option (Item V)) (b : BuildInMapCache V S)
      → HasDistinctKeys b.entries
      → look key b ≡ o
      → look key (poll_found t key o b) ≡ kept t o
  unfolding kept
  look-visit_self t key none b d e = e
  look-visit_self t key (some i) b d e = elim (Bool-cases (deadline_before i t)) [
    | inl h ↦ rw h (look-delete_self key b i d e)
    | inr h ↦ rw h e
  ]

  go_on : (i : ℕ) (b c : BuildInMapCache V S) → i ≤ 1000 → (if ltb 1000 i then b else c) ≡ c
  go_on i b c h = ground (arith, h)

  poll-outside :
      (t i : ℕ) (keys : List Text) (b : BuildInMapCache V S) (k : Text)
      → i + length keys ≤ 1001
      → (IsAmong k keys → ⊥)
      → look k (poll t i keys b) ≡ look k b
  unfolding poll IsAmong
  poll-outside t i [] b k l n = refl
  poll-outside t i (key ∷ keys) b k l n =
      ap (look k) (go_on i b (poll t (i + 1) keys (visit t key b)) (omega (arith, l)))
      ∙ (poll-outside t (i + 1) keys (visit t key b) k (omega (arith, l)) (λ h. n (inr h))
          ∙ look-visit_ne t k key (look key b) b (λ h. n (inl (sym h))))

  poll-inside :
      (t i : ℕ) (keys : List Text) (b : BuildInMapCache V S) (k : Text)
      → HasDistinctKeys b.entries
      → i + length keys ≤ 1001
      → IsAmong k keys
      → look k (poll t i keys b) ≡ kept t (look k b)
  unfolding poll IsAmong
  poll-inside t i [] b k d l n = absurd n
  poll-inside t i (key ∷ keys) b k d l n =
      let fresh = visit-HasDistinctKeys t key (look key b) b d in
      ap (look k) (go_on i b (poll t (i + 1) keys (visit t key b)) (omega (arith, l)))
      ∙ elim (text_discrete key k) [
        | yes h ↦
            let here : look k (visit t key b) ≡ kept t (look k b) =
              subst (λ x. look x (visit t key b) ≡ kept t (look x b)) h
                (look-visit_self t key (look key b) b d refl) in
            elim (IsAmong-cases k keys) [
              | inl g ↦
                  poll-inside t (i + 1) keys (visit t key b) k fresh (omega (arith, l)) g
                  ∙ (ap (kept t) here ∙ kept_twice t (look k b))
              | inr g ↦ poll-outside t (i + 1) keys (visit t key b) k (omega (arith, l)) g ∙ here
            ]
        | no h ↦
            poll-inside t (i + 1) keys (visit t key b) k fresh (omega (arith, l))
              (elim n [ inl x ↦ absurd (h x) | inr x ↦ x ])
            ∙ ap (kept t) (look-visit_ne t k key (look key b) b (λ x. h (sym x)))
      ]

  all_visited :
      (t i : ℕ) (keys : List Text) (b : BuildInMapCache V S) (k : Text)
      → HasDistinctKeys b.entries
      → i + length keys ≤ 1001
      → look k (poll t i keys b) ≡ (if is_among k keys then kept t (look k b) else look k b)
  all_visited t i keys b k d l = at_case (is_among k keys) refl
    where
      at_case :
          (x : Bool)
          → is_among k keys ≡ x
          → look k (poll t i keys b) ≡ (if x then kept t (look k b) else look k b)
      at_case true h = poll-inside t i keys b k d l ((is_among_iff k keys).0 h)
      at_case false h =
          poll-outside t i keys b k l (λ g. true_ne_false (sym ((is_among_iff k keys).1 g) ∙ h))

  -- Of the keys behind the break none is visited.
  poll-take :
      (t i n : ℕ) (keys : List Text) (b : BuildInMapCache V S)
      → i + n ≡ 1001
      → poll t i keys b ≡ poll t i (take n keys) b
  unfolding poll
  poll-take t i zero [] b e = refl
  poll-take t i (suc n) [] b e = refl
  poll-take t i zero (key ∷ keys) b e = ground (arith, e)
  poll-take t i (suc n) (key ∷ keys) b e =
      ap (λ x. if ltb 1000 i then b else x)
        (poll-take t (i + 1) n keys (visit t key b) (omega (arith, e)))

  -- A tick over any keys looks at the first 1001 of them: of their items it deletes those whose
  -- deadline is before its time, and all other items stay. The keys of the cache differ.
  pub get-poll :
      (t : ℕ) (keys : List Text) (b : BuildInMapCache V S) (k : Text)
      → HasDistinctKeys b.entries
      → look k (poll t 0 keys b)
        ≡ (if is_among k (take 1001 keys) then kept t (look k b) else look k b)
  get-poll t keys b k d =
      ap (look k) (poll-take t 0 1001 keys b refl)
      ∙ all_visited t 0 (take 1001 keys) b k d (omega (arith, length-take_le 1001 keys))
