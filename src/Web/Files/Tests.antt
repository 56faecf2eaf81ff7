-- ===== src/Web/Files/Tests.antt =====
-- A witness for static files, over files that cannot be read and a cache that is a dictionary.
use gotest.Common.{ℕ, ◌*◌, ◌≡◌, refl, ap, none, some, List, [], ◌∷◌, ◌++◌}
use gotest.Common.Text.{Text, codes, text_discrete}
use gotest.Common.Dict
use gotest.Web.Context.{Context, finished}
use gotest.Web.Files.{
  Files, Messages, StaticResourceHandler, new_static_resource_handler, answer, content,
  handle_static,
}
use gotest.Web.Files.Cached.{KeepsFiles, handle_static_after_error}

abbrev Cached : Type 0
Cached = List (Text × Text)

abbrev files : Files Cached
files = record {
  join = λ dir name. dir ++ name;
  clean = λ name. name;
  base = λ name. name;
  ext = λ name. codes ".png";
  read_file = λ name w. ([], some 2);
  serve_file = λ name w. w;
  set_header = λ name v w. w;
  show = λ n. [];
  cache_get = λ value w. (Dict.get text_discrete value w, w);
  cache_add = λ value text w. Dict.put text_discrete value text w;
}

files-KeepsFiles : KeepsFiles files
files-KeepsFiles = record {
  apply = λ value text w.
      ap (λ o. (o, Dict.put text_discrete value text w))
        (Dict.get-put_self text_discrete value text w);
}

abbrev messages : Messages
messages = record {
  wrong_path = codes "path";
  server_error = codes "error";
  not_found = codes "missing";
  upload_failed = codes "failed";
  uploaded = codes "ok";
}

abbrev handler : StaticResourceHandler
handler = new_static_resource_handler (codes "static/")

abbrev asking : Cached → Context Cached ℕ
asking w = record {
  req = record {
    method = codes "GET";
    path = codes "/static/a.png";
    host = [];
    query = [];
    form = none;
    body = none;
    cookies = [];
  };
  world = w;
  resp_data = [];
  resp_status_code = 0;
  path_params = (codes "file", codes "a.png") ∷ [];
  query_values = none;
  match_route = [];
  user_values = [];
}

abbrev cached : Cached
cached = Dict.put text_discrete (codes "a.png") [] []

named :
    (w : Cached)
    → Dict.get text_discrete (codes "file") (asking w).path_params ≡ some (codes "a.png")
unfolding Dict.get text_discrete
named w = refl

not_cached : files.cache_get (codes "a.png") [] ≡ (none, [])
unfolding Dict.get
not_cached = refl

handle_static_after_error_example :
    (handle_static files messages handler (asking [])
      ≡ finished
          (answer files messages 500 messages.server_error (record (asking []) { world = cached })))
    × (handle_static files messages handler (asking cached)
        ≡ finished (content files messages handler (codes "png") [] (asking cached)))
handle_static_after_error_example =
    handle_static_after_error files messages files-KeepsFiles handler (1024 * 1024 * 10)
      (codes "a.png") (codes "png") b'.' 2 (asking []) (asking cached) [] refl (named [])
      (named cached) refl not_cached refl refl
