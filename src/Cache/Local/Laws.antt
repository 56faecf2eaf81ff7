-- ===== src/Cache/Local/Laws.antt =====
-- The operations of the map cache against one another.
use gotest.Common.{
  ℕ, ◌+◌, ◌≡◌, refl, sym, ◌∙◌, ap, Option, none, some, ◌&&◌, ltb, if◌then◌else◌, arith,
}
use gotest.Common.Text.{Text, text_discrete}
use gotest.Common.Dict
use gotest.Common.Dict.{HasDistinctKeys}
use gotest.Cache.Local.{
  BuildInMapCache, Item, Reply, deadline_before, deadline, set, delete, delete_found, get,
  get_found, remove, remove_found,
}

module _ {V : Type 0} where
  is_expired :
      (now now' expiration : ℕ) (val : V)
      → deadline_before (record { val = val; expiration = deadline now expiration }) now'
        ≡ (ltb 0 expiration && ltb (now + expiration) now')
  unfolding deadline_before deadline
  is_expired now now' expiration val = ground arith

module _ {V S : Type 0} where
  set_found :
      (now : ℕ) (key : Text) (val : V) (expiration : ℕ) (b : BuildInMapCache V S)
      → Dict.get text_discrete key (set now key val expiration b).entries
        ≡ some (record { val = val; expiration = deadline now expiration })
  unfolding set
  set_found now key val expiration b =
      Dict.get-put_self text_discrete key
        (record { val = val; expiration = deadline now expiration }) b.entries

  get_after :
      (now : ℕ) (key : Text) (b : BuildInMapCache V S) (i : Item V)
      → Dict.get text_discrete key b.entries ≡ some i
      → get now key b ≡ (Reply.value i.val, if deadline_before i now then delete key b else b)
  unfolding get
  get_after now key b i h = rw h refl

  -- A `Get` of a key after its `Set` answers the value that was set, also after its deadline. It
  -- deletes the key after the deadline, if there is one, and else leaves the cache alone.
  pub get-set :
      (now now' : ℕ) (key : Text) (val : V) (expiration : ℕ) (b : BuildInMapCache V S)
      → get now' key (set now key val expiration b) ≡ (
        Reply.value val,
        if ltb 0 expiration && ltb (now + expiration) now'
            then delete key (set now key val expiration b)
            else set now key val expiration b,
      )
  get-set now now' key val expiration b =
      get_after now' key (set now key val expiration b) _ (set_found now key val expiration b)
      ∙ ap
          (λ x. (
            Reply.value val,
            if x then delete key (set now key val expiration b) else set now key val expiration b,
          ))
          (is_expired now now' expiration val)

  remove_case :
      (now : ℕ) (key : Text) (o : Option (Item V)) (b : BuildInMapCache V S)
      → HasDistinctKeys b.entries
      → Dict.get text_discrete key b.entries ≡ o
      → get now key (remove_found key o b).1 ≡ (Reply.no_value, (remove_found key o b).1)
  unfolding get delete
  remove_case now key none b d h = rw h refl
  remove_case now key (some i) b d h =
      ap (λ o. get now key (delete_found o key b)) h
      ∙ (ap (λ o. get_found now key o (delete_found (some i) key b))
            (Dict.get-remove_self text_discrete key b.entries d)
          ∙ ap (λ o. (Reply.no_value, delete_found o key b)) (sym h))

  -- With distinct keys, a `Get` after `Delete` of the key answers that there is no value, and
  -- changes nothing.
  pub get-remove :
      (now : ℕ) (key : Text) (b : BuildInMapCache V S)
      → HasDistinctKeys b.entries
      → get now key (remove key b).1 ≡ (Reply.no_value, (remove key b).1)
  unfolding remove
  get-remove now key b d = remove_case now key (Dict.get text_discrete key b.entries) b d refl
