-- ===== src/PropertyPath/Tests.antt =====
-- Paths at concrete inputs: a tree of named parts, in which a path is read.
use perfect_ws.Base.{
  ◌≡◌, refl, Bool, true, false, Option, none, some, List, [], ◌∷◌, map, if◌then◌else◌, nat_eq,
  string_eq,
}
use perfect_ws.PropertyPath.{
  Text, Key, name, symbol, backslash, dot, bang, escape_segment, encode_path_key, split_path,
  unescape, decode_path_key, join, text_beq, is_forbidden_property_key, get_step, get_segments,
  get_property,
}
use perfect_ws.PropertyPath.RoundTrip.{IsKnown, AreKnown}
use perfect_ws.PropertyPath.Access.{follow, Leads, get_property-follow, get_property-Leads}

abbrev a_dot_b : Text
a_dot_b = b'a' ∷ b'.' ∷ b'b' ∷ []

abbrev proto : Text
proto = b'_' ∷ b'_' ∷ b'p' ∷ b'r' ∷ b'o' ∷ b't' ∷ b'o' ∷ b'_' ∷ b'_' ∷ []

data Thing : Type 0 where
  root part leaf prototype : Thing

is_object_like : Thing → Bool
is_object_like leaf = false
is_object_like _ = true

has_own : Thing → Key → Bool
unfolding text_beq
has_own root (name k) = text_beq k a_dot_b
has_own part (symbol k) = text_beq k (b's' ∷ [])
has_own _ _ = false

-- Every name that an object has not itself is read from its prototype.
read : Thing → Key → Option Thing
unfolding text_beq
read root (name k) = if text_beq k a_dot_b then some part else some prototype
read part (symbol k) = if text_beq k (b's' ∷ []) then some leaf else none
read part (name k) = some prototype
read _ _ = none

known : Text → Option Text
unfolding text_beq
known k = if text_beq k (b's' ∷ []) then some k else none

abbrev keys : List Key
keys = name a_dot_b ∷ symbol (b's' ∷ []) ∷ []

abbrev path : Text
path = b'a' ∷ backslash ∷ b'.' ∷ b'b' ∷ dot ∷ bang ∷ b's' ∷ []

computing : Unit {0}
unfolding is_object_like has_own read known escape_segment encode_path_key split_path
    decode_path_key join text_beq get_property get_segments get_step unescape
    is_forbidden_property_key follow
computing = tt

keys_written : join (map encode_path_key keys) ≡ path
unfolding computing
keys_written = refl

path_read : get_property is_object_like has_own read known root path ≡ some leaf
unfolding computing
path_read = refl

proto_refused : get_property is_object_like has_own read known root proto ≡ none
unfolding computing
proto_refused = refl

-- An object inherits a property of the name `a`, which no path reads.
inherited_refused :
    (read root (name (b'a' ∷ [])) ≡ some prototype)
    × (get_property is_object_like has_own read known root (b'a' ∷ []) ≡ none)
unfolding computing
inherited_refused = (refl, refl)

every_known : AreKnown known keys
unfolding computing IsKnown
every_known = (tt, (refl, tt))

get_property-follow_example :
    get_property is_object_like has_own read known root (join (map encode_path_key keys))
    ≡ follow is_object_like has_own read root keys
get_property-follow_example =
    get_property-follow is_object_like has_own read known root (name a_dot_b)
      (symbol (b's' ∷ []) ∷ []) every_known

get_property-Leads_example : Leads is_object_like has_own read root leaf
unfolding computing
get_property-Leads_example =
    get_property-Leads is_object_like has_own read known root leaf path refl
