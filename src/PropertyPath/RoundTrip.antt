-- ===== src/PropertyPath/RoundTrip.antt =====
-- What is encoded comes back.
use perfect_ws.Base.{
  ℕ, ◌≡◌, refl, sym, ◌∙◌, ap, true, false, inl, inr, Bool-cases, Option, some, List, [], ◌∷◌, ◌++◌,
  map, arith, nat_beq, All,
}
use mathlib.Core.List.{append-nil, append_assoc}
use perfect_ws.PropertyPath.{
  Text, Key, name, symbol, backslash, dot, bang, is_special, escape_segment, encode_path_key,
  split_from, split_path, is_line_terminator, unescape, decode_path_key, join,
}

not_special :
    (c : ℕ)
    → is_special c ≡ false
    → (nat_beq c backslash ≡ false) × (nat_beq c dot ≡ false) × (nat_beq c bang ≡ false)
unfolding is_special
not_special c h = (ground arith, ground arith, ground arith)

special_in_line : (c : ℕ) → is_special c ≡ true → is_line_terminator c ≡ false
unfolding is_special is_line_terminator
special_in_line c h = ground arith

unescape-escape_segment : (k : Text) → unescape (escape_segment k) ≡ k
unfolding unescape escape_segment
unescape-escape_segment [] = refl
unescape-escape_segment (c ∷ cs) = elim (Bool-cases (is_special c)) [
  | inl e ↦ rw (e, special_in_line c e) (ap (◌∷◌ c) (unescape-escape_segment cs))
  | inr e ↦ rw (e, (not_special c e).0) (ap (◌∷◌ c) (unescape-escape_segment cs))
]

-- A segment is consumed whole: no dot of it splits.
split_from-escape_segment :
    (current k rest : Text)
    → split_from false current (escape_segment k ++ rest)
      ≡ split_from false (current ++ escape_segment k) rest
unfolding split_from escape_segment
split_from-escape_segment current [] rest =
    ap (λ t. split_from false t rest) (sym (append-nil current))
split_from-escape_segment current (c ∷ cs) rest = elim (Bool-cases (is_special c)) [
  | inl e ↦ rw e (
      split_from-escape_segment (current ++ backslash ∷ c ∷ []) cs rest
      ∙ ap (λ t. split_from false t rest)
          (append_assoc current (backslash ∷ c ∷ []) (escape_segment cs)))
  | inr e ↦
      rw (e, (not_special c e).0, (not_special c e).1)
        (split_from-escape_segment (current ++ c ∷ []) cs rest
          ∙ ap (λ t. split_from false t rest) (append_assoc current (c ∷ []) (escape_segment cs)))
]

split_from-encode_path_key :
    (k : Key) (rest : Text)
    → split_from false [] (encode_path_key k ++ rest) ≡ split_from false (encode_path_key k) rest
unfolding split_from encode_path_key
split_from-encode_path_key (name k) rest = split_from-escape_segment [] k rest
split_from-encode_path_key (symbol k) rest = split_from-escape_segment (bang ∷ []) k rest

-- The segments of the path that is written for a nonempty list of keys are what the keys are
-- encoded as.
pub split_path-join :
    (k : Key) (ks : List Key)
    → split_path (join (map encode_path_key (k ∷ ks))) ≡ map encode_path_key (k ∷ ks)
unfolding split_path split_from join
split_path-join k [] =
    ap (split_from false []) (sym (append-nil (encode_path_key k)))
    ∙ split_from-encode_path_key k []
split_path-join k (j ∷ ks) =
    split_from-encode_path_key k (dot ∷ join (map encode_path_key (j ∷ ks)))
    ∙ ap (◌∷◌ (encode_path_key k)) (split_path-join j ks)

-- A symbol is known if the receiver finds it by the key it is registered under.
unfoldable pub IsKnown : (Text → Option Text) → Key → Type 0
IsKnown known (name k) = Unit
IsKnown known (symbol s) = known s ≡ some s

abbrev pub AreKnown : (Text → Option Text) → List Key → Type 0
AreKnown known ks = All (IsKnown known) ks

-- A key that is encoded as a segment is decoded to itself, if it is no symbol or a symbol that the
-- receiver knows.
pub decode_path_key-encode_path_key :
    (known : Text → Option Text) (k : Key)
    → IsKnown known k
    → decode_path_key known (encode_path_key k) ≡ some k
unfolding decode_path_key encode_path_key escape_segment unescape IsKnown
decode_path_key-encode_path_key known (name []) h = refl
decode_path_key-encode_path_key known (name (c ∷ cs)) h = elim (Bool-cases (is_special c)) [
  | inl e ↦ rw (e, special_in_line c e) (ap (λ t. some (name (c ∷ t))) (unescape-escape_segment cs))
  | inr e ↦
      rw (e, (not_special c e).0, (not_special c e).2)
        (ap (λ t. some (name (c ∷ t))) (unescape-escape_segment cs))
]
decode_path_key-encode_path_key known (symbol s) h = rw (unescape-escape_segment s, h) refl
