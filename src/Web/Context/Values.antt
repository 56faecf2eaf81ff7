-- ===== src/Web/Context/Values.antt =====
-- What the accessors of a context answer.
use gotest.Common.{◌≡◌, refl, List}
use gotest.Common.Text.{Text}
use gotest.Web.Context.{Context, query_value}

module _ {W S : Type 0} where
  -- A first `QueryValue` for any key changes no later answer, not even after the request's query
  -- has been replaced.
  pub query_value_cached :
      (i j : Text) (c : Context W S) (q : List (Text × List Text))
      → (query_value j (record (query_value i c).1 { req = record c.req { query = q } })).0
        ≡ (query_value j c).0
  unfolding query_value
  query_value_cached i j c q = refl
