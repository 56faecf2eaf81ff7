-- ===== src/Cache/Layers/OnMap.antt =====
-- The map cache behind the interface, at a time.
use gotest.Common.{ℕ, ◌+◌, ◌≡◌, ◌∙◌, ap, subst, none, some, false, ◌&&◌, ltb, if◌then◌else◌, arith}
use gotest.Common.Text.{Text}
use gotest.Cache.Local.{BuildInMapCache, Reply}
use gotest.Cache.Local
use gotest.Cache.Local.Laws.{get-set}
use gotest.Cache.Layers.{no_value, Answer, Cache}
use gotest.Cache.Layers.ReadThrough.{KeepsValues}

not_yet : (now expiration : ℕ) → (ltb 0 expiration && ltb (now + expiration) now) ≡ false
not_yet now expiration = ground arith

module _ {V T : Type 0} (nil : V) where
  abbrev pub answer_of : Reply V × BuildInMapCache V T → Answer (BuildInMapCache V T) V
  answer_of (Local.value v, b) = (v, none, b)
  answer_of (_, b) = (nil, some no_value, b)

  abbrev pub map_cache : (now : ℕ) → Cache (BuildInMapCache V T) V
  map_cache now = record {
    set = λ key val expiration b. (none, Local.set now key val expiration b);
    get = λ key b. answer_of (Local.get now key b);
  }

  get_now :
      (now : ℕ) (key : Text) (v : V) (expiration : ℕ) (b : BuildInMapCache V T)
      → Local.get now key (Local.set now key v expiration b)
        ≡ (Reply.value v, Local.set now key v expiration b)
  get_now now key v expiration b =
      get-set now now key v expiration b
      ∙ ap
          (λ x. (
            Reply.value v,
            if x
                then Local.delete key (Local.set now key v expiration b)
                else Local.set now key v expiration b,
          ))
          (not_yet now expiration)

  -- At the time of a `Set` the map cache keeps the value.
  pub map_cache-KeepsValues : (now : ℕ) → KeepsValues (map_cache now)
  map_cache-KeepsValues now = record {
    apply = λ key v expiration s s' h.
        subst (λ x. answer_of (Local.get now key x) ≡ (v, none, x)) (ap (λ p. p.1) h)
          (ap answer_of (get_now now key v expiration s));
  }
