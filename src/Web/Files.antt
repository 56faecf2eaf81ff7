-- ===== src/Web/Files.antt =====
-- Files of the web framework: web/file.go. The file system, path/filepath and the package lru are
-- parameters; `W` is what is outside of the context.
pub mod Cached
mod Tests
use gotest.Common.{
  ℕ, ◌*◌, Option, none, some, List, [], ◌∷◌, Bool, true, false, length, leb, if◌then◌else◌, ◌++◌,
}
use gotest.Common.Text.{Text, codes, text_discrete}
use gotest.Common.Dict
use gotest.Web.Context.{
  Request, Context, Run, finished, panicking, HandleFunc, StringValue, query_value, path_value,
}

-- What the handlers call. `ext` is `filepath.Ext`, with the dot; `read_file` answers the data with
-- the error; `show` is `strconv.Itoa`.
pub record Files (W : Type 0) : Type 0 where
  pub join : Text → Text → Text
  pub clean : Text → Text
  pub base : Text → Text
  pub ext : Text → Text
  pub read_file : Text → W → Text × Option ℕ
  pub serve_file : Text → W → W
  pub set_header : Text → Text → W → W
  pub show : ℕ → Text
  pub cache_get : Text → W → Option Text × W
  pub cache_add : Text → Text → W → W

-- The messages, in Chinese in the source.
pub record Messages : Type 0 where
  pub wrong_path : Text
  pub server_error : Text
  pub not_found : Text
  pub upload_failed : Text
  pub uploaded : Text

-- An `int`: a number, or a negative one, `negsuc n` for `-(n + 1)`.
pub data ℤ : Type 0 where
  pos negsuc : ℕ → ℤ

-- `StaticResourceHandler`, without its cache.
pub record StaticResourceHandler : Type 0 where
  pub dir : Text
  pub ext_context_type_map : List (Text × Text)
  pub max_size : ℤ

-- `NewStaticResourceHandler`, for a cache that could be made, and its options.
abbrev pub new_static_resource_handler : Text → StaticResourceHandler
new_static_resource_handler dir = record {
  dir = dir;
  max_size = pos (1024 * 1024 * 10);
  ext_context_type_map =
      (codes "jpeg", codes "image/jpeg")
      ∷ (codes "jpe", codes "image/jpeg")
      ∷ (codes "jpg", codes "image/jpeg")
      ∷ (codes "png", codes "image/png")
      ∷ (codes "pdf", codes "image/pdf")
      ∷ [];
}

abbrev pub static_with_max_file_size : ℤ → StaticResourceHandler → StaticResourceHandler
static_with_max_file_size max h = record h { max_size = max }

-- The order in which Go ranges over the map does not matter: the keys of a map are distinct.
unfoldable pub more_extensions : List (Text × Text) → List (Text × Text) → List (Text × Text)
more_extensions [] m = m
more_extensions ((ext, kind) ∷ es) m = more_extensions es (Dict.put text_discrete ext kind m)

abbrev pub static_with_more_extensions :
    List (Text × Text) → StaticResourceHandler → StaticResourceHandler
static_with_more_extensions es h = record h {
  ext_context_type_map = more_extensions es h.ext_context_type_map;
}

-- A missing content type is the empty text.
abbrev or_empty : Option Text → Text
or_empty none = []
or_empty (some t) = t

-- `len(data) <= maxSize`
abbrev fits : ℕ → ℤ → Bool
fits n (pos m) = leb n m
fits n (negsuc m) = false

module _ {W : Type 0} (files : Files W) where
  -- The data go into the cache before the error is looked at.
  abbrev cached : StaticResourceHandler → Text → Text → W → W
  cached h value text w = if fits (length text) h.max_size then files.cache_add value text w else w

  -- The headers that `FileDownLoader` sets.
  abbrev download_headers : Text → W → W
  download_headers name w = files.set_header (codes "Pragma") (codes "public") (
      files.set_header (codes "Cache-Control") (codes "must-revalidate") (
        files.set_header (codes "Expires") (codes "0") (
          files.set_header (codes "Content-Transfer-Encoding") (codes "binary") (
            files.set_header (codes "Content-Type") (codes "application/octet-stream") (
              files.set_header (codes "Content-Description") (codes "File Transfer")
                (files.set_header (codes "Content-Disposition") name w))))))

module _ {W S : Type 0} (files : Files W) (messages : Messages) where
  abbrev pub answer : ℕ → Text → Context W S → Context W S
  answer status text c = record c { resp_status_code = status; resp_data = text }

  abbrev pub content : StaticResourceHandler → Text → Text → Context W S → Context W S
  content h ext text c = record c {
    world = files.set_header (codes "Content-Length") (files.show (length text)) (
        files.set_header (codes "Content-Type")
          (or_empty (Dict.get text_discrete ext h.ext_context_type_map)) c.world);
    resp_data = text;
    resp_status_code = 200;
  }

  abbrev answered : StaticResourceHandler → Text → Text → Option ℕ → Context W S → Context W S
  answered h ext text (some e) c = answer 500 messages.server_error c
  answered h ext text none c = content h ext text c

  abbrev pub read_in :
      StaticResourceHandler → Text → Text → Text × Option ℕ → Context W S → Context W S
  read_in h ext value (text, e) c =
      answered h ext text e (record c { world = cached files h value text c.world })

  abbrev pub looked_up :
      StaticResourceHandler → Text → Text → Option Text × W → Context W S → Context W S
  looked_up h ext value (some text, w) c = content h ext text (record c { world = w })
  looked_up h ext value (none, w) c =
      read_in h ext value (files.read_file (files.join h.dir value) w) (record c { world = w })

  -- `filepath.Ext(dst)[1:]` panics where there is no extension.
  abbrev pub with_ext : StaticResourceHandler → Text → Text → HandleFunc W S
  with_ext h value [] c = panicking c
  with_ext h value (dot ∷ ext) c =
      finished (looked_up h ext value (files.cache_get value c.world) c)

  abbrev pub static_at : StaticResourceHandler → StringValue → HandleFunc W S
  static_at h v c = elim v.err [
    | some e ↦ finished (answer 400 messages.wrong_path c)
    | none ↦ with_ext h v.value (files.ext (files.join h.dir v.value)) c
  ]

  -- `Handle` of `StaticResourceHandler`
  unfoldable pub handle_static : StaticResourceHandler → HandleFunc W S
  handle_static h c = static_at h (path_value (codes "file") c) c

  -- `Handle` of `FileDownLoader`, for the folder.
  abbrev pub download_to : Text → Context W S → Context W S
  download_to dst c = record c {
    world =
        files.serve_file dst
          (download_headers files (codes "attachment;filename=" ++ files.base dst) c.world);
  }

  abbrev pub download_at : Text → Run StringValue × Context W S → Run (Context W S)
  download_at dir (panicking v, c) = panicking c
  download_at dir (finished v, c) = elim v.err [
    | some e ↦ finished (answer 400 messages.not_found c)
    | none ↦ finished (download_to (files.join dir (files.clean v.value)) c)
  ]

  unfoldable pub handle_download : Text → HandleFunc W S
  unfolding query_value
  handle_download dir c = download_at dir (query_value (codes "file") c)

-- `Handle` of `FileUpLoader`: the form file, the destination, and the results of opening and copying
-- in turn. An error's text is appended to the message of the first two.
pub record Uploads (W F : Type 0) : Type 0 where
  pub form_file : Text → Request → F × Option ℕ
  pub dst_path : F → Text
  pub open_file : Text → W → Option ℕ × W
  pub copy : F → Text → W → Option ℕ × W
  pub describe : ℕ → Text

module _ {W S F : Type 0} (uploads : Uploads W F) (messages : Messages) where
  abbrev upload_answer : ℕ → Text → W → Context W S → Context W S
  upload_answer status text w c = record c {
    resp_status_code = status;
    resp_data = text;
    world = w;
  }

  abbrev copied : Option ℕ × W → Context W S → Context W S
  copied (none, w) c = upload_answer 200 messages.uploaded w c
  copied (some e, w) c = upload_answer 500 messages.upload_failed w c

  abbrev opened : F → Text → Option ℕ × W → Context W S → Context W S
  opened f dst (none, w) c = copied (uploads.copy f dst w) c
  opened f dst (some e, w) c = upload_answer 500 (messages.upload_failed ++ uploads.describe e) w c

  abbrev received : F × Option ℕ → Context W S → Context W S
  received (f, none) c =
      opened f (uploads.dst_path f) (uploads.open_file (uploads.dst_path f) c.world) c
  received (f, some e) c =
      upload_answer 500 (messages.upload_failed ++ uploads.describe e) c.world c

  unfoldable pub handle_upload : Text → HandleFunc W S
  handle_upload field c = finished (received (uploads.form_file field c.req) c)
