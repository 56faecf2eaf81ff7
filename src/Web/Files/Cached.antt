-- ===== src/Web/Files/Cached.antt =====
-- What the cache of static files keeps.
use gotest.Common.{ℕ, ◌≡◌, ◌∙◌, sym, ap, none, some, [], ◌∷◌, true, leb, if◌then◌else◌, arith}
use gotest.Common.Text.{Text, codes, text_discrete}
use gotest.Common.Dict
use gotest.Web.Context.{Context, finished, path_value, param_value}
use gotest.Web.Files.{
  Files, Messages, StaticResourceHandler, pos, fits, answer, content, read_in, looked_up, with_ext,
  static_at, handle_static,
}

-- What has been added to the cache is found, until it is evicted.
pub record KeepsFiles {W : Type 0} (files : Files W) : Type 0 where
  pub apply :
      (value text : Text) (w : W)
      → files.cache_get value (files.cache_add value text w)
        ≡ (some text, files.cache_add value text w)

zero_leb : (n : ℕ) → leb 0 n ≡ true
zero_leb n = ground arith

module _ {W S : Type 0} (files : Files W) (messages : Messages) where
  at_file :
      (h : StaticResourceHandler) (value ext : Text) (dot : ℕ) (c : Context W S)
      → Dict.get text_discrete (codes "file") c.path_params ≡ some value
      → files.ext (files.join h.dir value) ≡ dot ∷ ext
      → handle_static files messages h c
        ≡ finished (looked_up files messages h ext value (files.cache_get value c.world) c)
  unfolding handle_static path_value
  at_file h value ext dot c p e =
      ap (λ o. static_at files messages h (param_value o) c) p
      ∙ ap (λ x. with_ext files messages h value x c) e

  -- A request for a file that cannot be read and is not cached is answered with the status 500; but
  -- where `maxSize` is not negative its empty data go into the cache, and a request for it that finds
  -- the cache like that is answered with the status 200 and no data.
  pub handle_static_after_error :
      (keeps : KeepsFiles files) (h : StaticResourceHandler) (n : ℕ) (value ext : Text) (dot e : ℕ)
      → (c d : Context W S) (w : W) → h.max_size ≡ pos n
      → Dict.get text_discrete (codes "file") c.path_params ≡ some value
      → Dict.get text_discrete (codes "file") d.path_params ≡ some value
      → files.ext (files.join h.dir value) ≡ dot ∷ ext
      → files.cache_get value c.world ≡ (none, w)
      → files.read_file (files.join h.dir value) w ≡ ([], some e)
      → d.world ≡ files.cache_add value [] w
      → (handle_static files messages h c
          ≡ finished (
              answer files messages 500 messages.server_error
                (record c { world = files.cache_add value [] w })))
        × (handle_static files messages h d ≡ finished (content files messages h ext [] d))
  handle_static_after_error keeps h n value ext dot e c d w m p q x g r v = (
    at_file h value ext dot c p x
        ∙ (ap (λ o. finished (looked_up files messages h ext value o c)) g
            ∙ (ap (λ t. finished (read_in files messages h ext value t (record c { world = w }))) r
                ∙ ap
                    (λ b. finished (
                      answer files messages 500 messages.server_error
                        (record c { world = if b then files.cache_add value [] w else w })))
                    (ap (fits 0) m ∙ zero_leb n))),
    at_file h value ext dot d q x
        ∙ ap (λ o. finished (looked_up files messages h ext value o d))
            (ap (files.cache_get value) v
              ∙ (keeps.apply value [] w ∙ ap (λ x. (some [], x)) (sym v))),
  )
