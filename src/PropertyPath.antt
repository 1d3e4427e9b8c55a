-- ===== src/PropertyPath.antt =====
-- src/PerfectWSAdvanced/transform/utils/getProperty.ts: property paths as text. A text is the list of
-- its UTF-16 code units. Symbols that have no registered key are never encoded, so that a key is
-- a text or the registered key of a symbol; the receiver's table of symbols and the objects that a
-- path is read in are parameters.
pub mod RoundTrip
pub mod Access
mod Tests
use perfect_ws.Base.{
  ℕ, ◌+◌, ◌-◌, ◌*◌, ◌/◌, ◌%◌, ◌^◌, ◌≤◌, ◌<◌, ◌≡◌, ◌∙◌, ◌≢◌, ◌↔◌, ◌⊎◌, Bool, true, false, not, ◌&&◌,
  ◌||◌, Option, none, some, List, [], ◌∷◌, ◌++◌, nat_beq, if◌then◌else◌, get_elem?,
  get_elem?-IsPrefix, ◌==◌, nat_eq, string_eq,
}

abbrev pub Text : Type 0
Text = List ℕ

pub data Key : Type 0 where
  name : Text → Key
  symbol : (registered : Text) → Key

abbrev pub backslash : ℕ
backslash = b'\\'

abbrev pub dot : ℕ
dot = b'.'

abbrev pub bang : ℕ
bang = b'!'

pub is_special : ℕ → Bool
is_special c = nat_beq c backslash || nat_beq c dot || nat_beq c bang

pub escape_segment : Text → Text
unfolding is_special
escape_segment [] = []
escape_segment (c ∷ cs) =
    if is_special c then backslash ∷ c ∷ escape_segment cs else c ∷ escape_segment cs

pub encode_path_key : Key → Text
encode_path_key (name k) = escape_segment k
encode_path_key (symbol k) = bang ∷ escape_segment k

-- The loop of `splitPath`; `pending` says that the last unit was a backslash not yet consumed.
pub split_from : (pending : Bool) → (current : Text) → Text → List Text
split_from true current [] = (current ++ backslash ∷ []) ∷ []
split_from false current [] = current ∷ []
split_from true current (c ∷ cs) = split_from false (current ++ backslash ∷ c ∷ []) cs
split_from false current (c ∷ cs) =
    let escaped = split_from true current cs in
    let closed = split_from false [] cs in
    let longer = split_from false (current ++ c ∷ []) cs in
    if nat_beq c backslash then escaped else if nat_beq c dot then current ∷ closed else longer

pub split_path : Text → List Text
unfolding split_from
split_path path = split_from false [] path

-- What `.` in the pattern of `decodePathKey` does not match.
pub is_line_terminator : ℕ → Bool
is_line_terminator c = nat_beq c 10 || nat_beq c 13 || nat_beq c 0x2028 || nat_beq c 0x2029

-- `replace(/\\(.)/g, '$1')`
pub unescape_from : (pending : Bool) → Text → Text
unescape_from true [] = backslash ∷ []
unescape_from false [] = []
unescape_from true (c ∷ cs) =
    let rest = unescape_from false cs in
    if is_line_terminator c then backslash ∷ c ∷ rest else c ∷ rest
unescape_from false (c ∷ cs) =
    let escaped = unescape_from true cs in
    let rest = unescape_from false cs in if nat_beq c backslash then escaped else c ∷ rest

pub unescape : Text → Text
unfolding unescape_from is_line_terminator
unescape segment = unescape_from false segment

-- The key that a segment stands for; `none` if it names a symbol that the receiver does not know.
pub decode_path_key : (Text → Option Text) → Text → Option Key
unfolding unescape
decode_path_key known [] = some (name [])
decode_path_key known (c ∷ cs) =
    if nat_beq c bang
    then elim (known (unescape cs)) [ none ↦ none | some s ↦ some (symbol s) ]
    else some (name (unescape (c ∷ cs)))

-- Segments joined by dots.
pub join : List Text → Text
join [] = []
join (s ∷ []) = s
join (s ∷ t ∷ ss) = s ++ dot ∷ join (t ∷ ss)

abbrev pub forbidden_keys : List Text
forbidden_keys =
    (b'_' ∷ b'_' ∷ b'p' ∷ b'r' ∷ b'o' ∷ b't' ∷ b'o' ∷ b'_' ∷ b'_' ∷ [])
    ∷ (b'p' ∷ b'r' ∷ b'o' ∷ b't' ∷ b'o' ∷ b't' ∷ b'y' ∷ b'p' ∷ b'e' ∷ [])
    ∷ (b'c' ∷ b'o' ∷ b'n' ∷ b's' ∷ b't' ∷ b'r' ∷ b'u' ∷ b'c' ∷ b't' ∷ b'o' ∷ b'r' ∷ [])
    ∷ []

unfoldable pub text_beq : Text → Text → Bool
text_beq [] [] = true
text_beq (a ∷ as') (b ∷ bs) = nat_beq a b && text_beq as' bs
text_beq _ _ = false

unfoldable pub contains_text : List Text → Text → Bool
unfolding text_beq
contains_text [] k = false
contains_text (t ∷ ts) k = text_beq t k || contains_text ts k

unfoldable pub is_forbidden_property_key : Key → Bool
unfolding contains_text
is_forbidden_property_key (name k) = contains_text forbidden_keys k
is_forbidden_property_key (symbol k) = false

module _ {V : Type 0} (is_object_like : V → Bool) (has_own : V → Key → Bool)
    (read : V → Key → Option V) (known : Text → Option Text) where
  -- One round of the loop of `getProperty`. `read v k` is `v[k]`, which an object may inherit, and
  -- `none` stands for `undefined`.
  pub get_step : V → Text → Option V
  unfolding decode_path_key is_forbidden_property_key
  get_step current segment =
      if not (is_object_like current) then none else elim (decode_path_key known segment) [
        | none ↦ none
        | some k ↦
            if is_forbidden_property_key k
            then none
            else if not (has_own current k)
            then none
            else read current k
      ]

  pub get_segments : V → List Text → Option V
  get_segments current [] = some current
  get_segments current (s ∷ ss) = elim (get_step current s) [
    | none ↦ none
    | some v ↦ get_segments v ss
  ]

  pub get_property : V → Text → Option V
  unfolding get_step get_segments split_path
  get_property object path = get_segments object (split_path path)
