-- ===== src/Main/Token.antt =====
-- main.go: checkToken. A token is "<sign>-<time>", the sign being the first 8 digits of the HMAC of the
-- time and the id.
use cbsignal_redis.Base.{
  ℕ, ◌≡◌, refl, sym, ◌≢◌, inl, inr, true, false, Option, none, some, List, [], ◌∷◌, ◌++◌, arith,
  ◌==◌, Bool-cases, All, Bytes, str_eq_refl, eq_iff,
}
use cbsignal_redis.Base.Int.{ℤ}
use cbsignal_redis.Main.{
  cons_head, split, parse_int, real_sign, in_window, check_sign, check_parts, check_token, Settings,
}

-- The parts with the separator between them.
abbrev pub joined : ℕ → List Bytes → Bytes
joined sep [] = []
joined sep (part ∷ []) = part
joined sep (part ∷ next ∷ parts) = part ++ sep ∷ joined sep (next ∷ parts)

joined-cons_head :
    (sep x : ℕ) (parts : List Bytes)
    → parts ≢ []
    → joined sep (cons_head x parts) ≡ x ∷ joined sep parts
unfolding cons_head
joined-cons_head sep x [] h = absurd (h refl)
joined-cons_head sep x (part ∷ []) h = refl
joined-cons_head sep x (part ∷ next ∷ parts) h = refl

cons_head_some : (x : ℕ) (parts : List Bytes) → cons_head x parts ≢ []
unfolding cons_head
cons_head_some x [] h = cc
cons_head_some x (part ∷ parts) h = cc

split_some : (sep : ℕ) (s : Bytes) → split sep s ≢ []
unfolding split
split_some sep [] h = cc
split_some sep (x ∷ s) h = elim (Bool-cases (x == sep)) [
  | inl here ↦ let e : [] ∷ split sep s ≡ [] = rw here at h in cc
  | inr other ↦ cons_head_some x (split sep s) (rw other at h)
]

joined_empty :
    (sep : ℕ) (parts : List Bytes) → parts ≢ [] → joined sep ([] ∷ parts) ≡ sep ∷ joined sep parts
joined_empty sep [] h = absurd (h refl)
joined_empty sep (part ∷ parts) h = refl

-- The parts of a text with the separator between them are the text.
joined-split : (sep : ℕ) (s : Bytes) → joined sep (split sep s) ≡ s
unfolding split
joined-split sep [] = refl
joined-split sep (x ∷ s) = elim (Bool-cases (x == sep)) [
  | inl here ↦
      let same : sep ≡ x = ground (arith, here) in
      rw (here, joined_empty sep (split sep s) (split_some sep s), joined-split sep s, same) refl
  | inr other ↦
      rw (other, joined-cons_head sep x (split sep s) (split_some sep s), joined-split sep s) refl
]

-- A text without the separator is one part.
pub split_plain : (sep : ℕ) (s : Bytes) → All (λ x. (x == sep) ≡ false) s → split sep s ≡ s ∷ []
unfolding split cons_head
split_plain sep [] h = refl
split_plain sep (x ∷ s) (h, hs) = rw (h, split_plain sep s hs) refl

pub split_sep :
    (sep : ℕ) (s t : Bytes)
    → All (λ x. (x == sep) ≡ false) s
    → split sep (s ++ sep ∷ t) ≡ s ∷ split sep t
unfolding split cons_head
split_sep sep [] t h = ground arith
split_sep sep (x ∷ s) t (h, hs) = rw (h, split_sep sep s t hs) refl

module _ (hmac_hex : Bytes → Bytes → Bytes) (settings : Settings) (now : ℕ) (id : Bytes) where
  -- What a token must be: a sign, a time in the window that the sign is for, and anything behind.
  pub record IsToken (token : Bytes) : Type 0 where
    pub sign : Bytes
    pub ts_str : Bytes
    pub rest : List Bytes
    pub ts : ℤ
    pub text : token ≡ joined 45 (sign ∷ ts_str ∷ rest)
    pub signed_time : sign ≡ real_sign hmac_hex settings ts_str id
    pub time : parse_int ts_str ≡ some ts
    pub recent : in_window hmac_hex settings now ts ≡ true

  sound_sign :
      (token sign ts_str : Bytes) (rest : List Bytes) (o : Option ℤ)
      → token ≡ joined 45 (sign ∷ ts_str ∷ rest)
      → parse_int ts_str ≡ o
      → check_sign hmac_hex settings now id sign ts_str o ≡ true
      → IsToken token
  unfolding check_sign
  sound_sign token sign ts_str rest none text time h = cc
  sound_sign token sign ts_str rest (some t) text time h =
      elim (Bool-cases (in_window hmac_hex settings now t)) [
        | inl recent' ↦ record {
          sign = sign;
          ts_str = ts_str;
          rest = rest;
          ts = t;
          text = text;
          signed_time = (eq_iff sign (real_sign hmac_hex settings ts_str id)).0 (rw recent' at h);
          time = time;
          recent = recent';
        }
        | inr old ↦ let e : false ≡ true = rw old at h in cc
      ]

  sound_parts :
      (token : Bytes) (parts : List Bytes)
      → token ≡ joined 45 parts
      → check_parts hmac_hex settings now id parts ≡ true
      → IsToken token
  unfolding check_parts
  sound_parts token [] text h = cc
  sound_parts token (sign ∷ []) text h = cc
  sound_parts token (sign ∷ ts_str ∷ rest) text h =
      sound_sign token sign ts_str rest (parse_int ts_str) text refl h

  -- A token is accepted only if it is a sign, a time and perhaps more, with dashes between them, the
  -- time is a number in the window around now, and the sign is the one made with the secret for that
  -- time and id.
  pub check_token_sound :
      (token : Bytes) → check_token hmac_hex settings now id token ≡ true → IsToken token
  unfolding check_token
  check_token_sound token h = sound_parts token (split 45 token) (sym (joined-split 45 token)) h

  -- A token made for an id with the secret and a time in the window is accepted; neither of its two
  -- parts may hold a dash.
  pub check_token_complete :
      (ts_str : Bytes) (ts : ℤ)
      → All (λ x. (x == 45) ≡ false) (real_sign hmac_hex settings ts_str id)
      → All (λ x. (x == 45) ≡ false) ts_str
      → parse_int ts_str ≡ some ts
      → in_window hmac_hex settings now ts ≡ true
      → check_token hmac_hex settings now id (real_sign hmac_hex settings ts_str id ++ 45 ∷ ts_str)
        ≡ true
  unfolding check_token check_parts check_sign
  check_token_complete ts_str ts plain plain' time recent =
      rw
        (
          split_sep 45 (real_sign hmac_hex settings ts_str id) ts_str plain,
          split_plain 45 ts_str plain',
          time,
          recent,
        )
        (str_eq_refl (real_sign hmac_hex settings ts_str id))
