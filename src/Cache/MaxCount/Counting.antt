-- ===== src/Cache/MaxCount/Counting.antt =====
-- The count of the keys, in every state that the operations reach.
use gotest.Common.{
  ℕ, ◌+◌, ◌%◌, ◌^◌, ◌≤◌, ◌<◌, ◌≡◌, refl, sym, ◌∙◌, ap, Option, none, some, List, [], ◌∷◌, Bool,
  true, false, ltb, if◌then◌else◌, length, arith,
}
use gotest.Common.Text.{Text, text_discrete}
use gotest.Common.Dict
use gotest.Common.Dict.{HasDistinctKeys}
use gotest.Cache.Local.{
  BuildInMapCache, Item, Reply, deadline_before, deadline, delete, delete_found, get, get_found,
  remove, remove_found, poll, poll_found,
}
use gotest.Cache.Local
use gotest.Cache.MaxCount.{add_int32, gt_int32, minus_one}

add_int32_one : (n max : ℕ) → n ≤ max → max + 1 < 2 ^ 31 → add_int32 n 1 ≡ n + 1
add_int32_one n max h k = omega (arith, h, k)

sub_int32_one : (n max : ℕ) → n + 1 ≤ max → max + 1 < 2 ^ 31 → add_int32 (n + 1) minus_one ≡ n
sub_int32_one n max h k = omega (arith, h, k)

shift_int32 : (n : ℕ) → n < 2 ^ 31 → (n + 2 ^ 31) % 2 ^ 32 ≡ n + 2 ^ 31
shift_int32 n h = omega (arith, h)

gt_int32_lem : (n max : ℕ) → n ≤ max → max + 1 < 2 ^ 31 → gt_int32 (n + 1) max ≡ ltb max (n + 1)
gt_int32_lem n max h k =
    rw (shift_int32 max (omega (arith, k)), shift_int32 (n + 1) (omega (arith, h, k)))
      (ground arith)

module _ {V S : Type 0} where
  -- The count is the number of keys, which is at most `max`; `max` is not the last `int32`.
  pub record IsCounted (max : ℕ) (c : BuildInMapCache V (ℕ × S)) : Type 0 where
    pub distinct : HasDistinctKeys c.entries
    pub counted : c.seen.0 ≡ length c.entries
    pub bounded : length c.entries ≤ max
    pub fits : max + 1 < 2 ^ 31
    pub callback :
        (key : Text) (val : V) (s : ℕ × S) → (c.on_evicted key val s).0 ≡ add_int32 s.0 minus_one

  delete_case :
      (max : ℕ) (key : Text) (c : BuildInMapCache V (ℕ × S)) (o : Option (Item V))
      → Dict.get text_discrete key c.entries ≡ o
      → IsCounted max c
      → IsCounted max (delete_found o key c)
  delete_case max key c none e h = h
  delete_case max key c (some i) e h =
      let shorter = Dict.length-remove text_discrete key i c.entries e in
      let rest = Dict.remove text_discrete key c.entries in
      record {
        distinct = Dict.remove-HasDistinctKeys text_discrete key c.entries h.distinct;
        counted =
            h.callback key i.val c.seen
            ∙ (ap (λ n. add_int32 n minus_one) (h.counted ∙ sym shorter)
                ∙ sub_int32_one (length rest) max (omega (arith, shorter, h.bounded)) h.fits);
        bounded = omega (arith, shorter, h.bounded);
        fits = h.fits;
        callback = h.callback;
      }

  pub delete-IsCounted :
      (max : ℕ) (key : Text) (c : BuildInMapCache V (ℕ × S))
      → IsCounted max c
      → IsCounted max (delete key c)
  unfolding delete
  delete-IsCounted max key c h = delete_case max key c (Dict.get text_discrete key c.entries) refl h

  choose_case :
      (max : ℕ) (b : Bool) {c d : BuildInMapCache V (ℕ × S)}
      → IsCounted max c
      → IsCounted max d
      → IsCounted max (if b then c else d)
  choose_case max true h k = h
  choose_case max false h k = k

  pub get_case :
      (max now : ℕ) (key : Text) (o : Option (Item V)) (c : BuildInMapCache V (ℕ × S))
      → IsCounted max c
      → IsCounted max (get_found now key o c).1
  get_case max now key none c h = h
  get_case max now key (some i) c h =
      choose_case max (deadline_before i now) (delete-IsCounted max key c h) h

  pub remove_case :
      (max : ℕ) (key : Text) (o : Option (Item V)) (c : BuildInMapCache V (ℕ × S))
      → IsCounted max c
      → IsCounted max (remove_found key o c).1
  remove_case max key none c h = h
  remove_case max key (some i) c h = delete-IsCounted max key c h

  poll_case :
      (max t : ℕ) (key : Text) (o : Option (Item V)) (c : BuildInMapCache V (ℕ × S))
      → IsCounted max c
      → IsCounted max (poll_found t key o c)
  poll_case max t key none c h = h
  poll_case max t key (some i) c h =
      choose_case max (deadline_before i t) (delete-IsCounted max key c h) h

  pub poll-IsCounted :
      (max t i : ℕ) (keys : List Text) (c : BuildInMapCache V (ℕ × S))
      → IsCounted max c
      → IsCounted max (poll t i keys c)
  unfolding poll
  poll-IsCounted max t i [] c h = h
  poll-IsCounted max t i (key ∷ keys) c h = choose_case max (ltb 1000 i) h (
      poll-IsCounted max t (i + 1) keys _
        (poll_case max t key (Dict.get text_discrete key c.entries) c h))

  -- With the key, `Set` keeps the count; without it, it counts one more, unless the cache is full.
  pub set_old :
      (now : ℕ) (key : Text) (val : V) (expiration max : ℕ) (c : BuildInMapCache V (ℕ × S))
      (i : Item V)
      → Dict.get text_discrete key c.entries ≡ some i
      → IsCounted max c
      → IsCounted max (Local.set now key val expiration c)
  unfolding Local.set
  set_old now key val expiration max c i e h =
      let same =
        Dict.length-put_old text_discrete key
          (record { val = val; expiration = deadline now expiration }) i c.entries e in
      record {
        distinct = Dict.put-HasDistinctKeys text_discrete key _ c.entries h.distinct;
        counted = h.counted ∙ sym same;
        bounded = omega (arith, same, h.bounded);
        fits = h.fits;
        callback = h.callback;
      }

  pub set_new :
      (now : ℕ) (key : Text) (val : V) (expiration max : ℕ) (c : BuildInMapCache V (ℕ × S))
      → Dict.get text_discrete key c.entries ≡ none
      → length c.entries < max
      → IsCounted max c
      → IsCounted max
          (Local.set now key val expiration (record c { seen = (add_int32 c.seen.0 1, c.seen.1) }))
  unfolding Local.set
  set_new now key val expiration max c e l h =
      let longer =
        Dict.length-put_new text_discrete key
          (record { val = val; expiration = deadline now expiration }) c.entries e in
      record {
        distinct = Dict.put-HasDistinctKeys text_discrete key _ c.entries h.distinct;
        counted =
            ap (λ n. add_int32 n 1) h.counted
            ∙ (add_int32_one (length c.entries) max h.bounded h.fits ∙ sym longer);
        bounded = omega (arith, longer, l);
        fits = h.fits;
        callback = h.callback;
      }

  pub is_full :
      (max : ℕ) (c : BuildInMapCache V (ℕ × S))
      → IsCounted max c
      → gt_int32 (add_int32 c.seen.0 1) max ≡ ltb max (length c.entries + 1)
  is_full max c h =
      ap (λ n. gt_int32 (add_int32 n 1) max) h.counted
      ∙ (ap (λ n. gt_int32 n max) (add_int32_one (length c.entries) max h.bounded h.fits)
          ∙ gt_int32_lem (length c.entries) max h.bounded h.fits)
