-- ===== src/Json.antt =====
-- JSON values as `json.loads` gives them, and what the services take from the standard library to
-- read and write texts.
use payment_platform_quality.Prelude.{
  ℕ, ℤ, Bool, Option, none, some, String, str_eq, ◌≡◌, if◌then◌else◌,
}

mutual
  -- `fraction` is a number with a fraction or an exponent, by its text.
  pub data Json : Type 0 where
    null : Json
    boolean : Bool → Json
    int : ℤ → Json
    fraction : String → Json
    text : String → Json
    array : Items → Json
    object : Dict → Json

  pub data Items : Type 0 where
    no_items : Items
    item : Json → Items → Items

  -- A dictionary with different keys.
  pub data Dict : Type 0 where
    end : Dict
    entry : String → Json → Dict → Dict

-- `values.get(name)`, where a missing key is not the value `None`
unfoldable pub get : String → Dict → Option Json
get name Dict.end = none
get name (Dict.entry key value rest) = if str_eq key name then some value else get name rest

-- A request body: what `json.loads` makes of it, if it is valid JSON in UTF-8.
pub data Body : Type 0 where
  json : Json → Body
  malformed : Body

-- `datetime.isoformat` of a UTC instant, `datetime.fromisoformat` with a naive time taken as UTC,
-- whether `astimezone` overflows on what `datetime.fromisoformat` reads since the years 1 to 9999 do
-- not hold it in UTC, `str.replace`, and the conversions `str` and `int` of a JSON value.
pub record Builtins : Type 0 where
  pub isoformat : ℕ → String
  pub fromisoformat : String → Option ℕ
  pub overflows : String → Bool
  pub replace_text : String → String → String → String
  pub str_of : Json → String
  pub int_of : Json → Option ℤ

-- What the services rely on: a formatted time is read back without overflow, also where its offset is abbreviated
-- to `Z` on the way; it is not empty; a text and a number are their own conversions.
pub record Documented (py : Builtins) : Type 0 where
  pub reads_back : (t : ℕ) → py.fromisoformat (py.isoformat t) ≡ some t
  pub in_range : (t : ℕ) → py.overflows (py.isoformat t) ≡ Bool.false
  pub offset_back :
      (t : ℕ)
      → py.replace_text "Z" "+00:00" (py.replace_text "+00:00" "Z" (py.isoformat t))
        ≡ py.isoformat t
  pub not_empty : (t : ℕ) → str_eq (py.replace_text "+00:00" "Z" (py.isoformat t)) "" ≡ Bool.false
  pub str-text : (s : String) → py.str_of (Json.text s) ≡ s
  pub int-int : (x : ℤ) → py.int_of (Json.int x) ≡ some x
