-- ===== src/Json.antt =====
-- JSON values as `response.json()` returns them, and the accesses that the sources make.
-- A number that is no natural number keeps its literal.
use docling_serve_ray.Prelude.{ℕ, Bool, Option, none, some, List, [], ◌∷◌, if◌then◌else◌}
use docling_serve_ray.Result.{Result, ok, err}
use docling_serve_ray.Text.{Text, str_eq}

mutual
  pub data Json : Type 0 where
    null : Json
    bool : Bool → Json
    num : ℕ → Json
    literal : Text → Json
    str : Text → Json
    arr : Items → Json
    obj : Fields → Json

  pub data Items : Type 0 where
    nil : Items
    cons : Json → Items → Items

  pub data Fields : Type 0 where
    end : Fields
    field : Text → Json → Fields → Fields

-- What Python raises on a value of the wrong shape.
pub data ShapeError : Type 0 where
  key_error : Text → ShapeError
  type_error : ShapeError

unfoldable pub find_field : Text → Fields → Option Json
find_field k end = none
find_field k (field j v fs) = if str_eq j k then some v else find_field k fs

-- `value.get(k)`: a missing key is `None`; only an object has the method.
unfoldable pub get : Text → Json → Result ShapeError (Option Json)
unfolding find_field
get k (obj fs) = ok (find_field k fs)
get k _ = err type_error

-- `value[k]`
unfoldable pub index : Text → Json → Result ShapeError Json
unfolding find_field
index k (obj fs) = elim (find_field k fs) [ none ↦ err (key_error k) | some v ↦ ok v ]
index k _ = err type_error

-- A value where the caller's declared type is `str`.
unfoldable pub as_text : Json → Result ShapeError Text
as_text (str s) = ok s
as_text _ = err type_error

-- A value where the declared type is `str | None`; a missing key is `None` too.
unfoldable pub as_text_or_none : Option Json → Result ShapeError (Option Text)
as_text_or_none none = ok none
as_text_or_none (some null) = ok none
as_text_or_none (some (str s)) = ok (some s)
as_text_or_none (some _) = err type_error

-- A list of texts as a JSON array.
unfoldable pub texts : List Text → Items
texts [] = nil
texts (s ∷ ss) = cons (str s) (texts ss)
