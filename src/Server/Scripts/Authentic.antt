-- ===== src/Server/Scripts/Authentic.antt =====
-- A script is executed only if a trusted key that has not expired verifies it.
use simple_x509_authenticate.Common.{
  ℕ, zero, suc, ◌+◌, ◌-◌, ◌^◌, ◌≤◌, ◌<◌, ◌≡◌, refl, sym, ap, subst, ◌∙◌, inl, inr, Bool, true,
  false, ◌++◌, Option, none, some, Bytes, length, get_elem?, get_elem?-lt, set, length-set, All,
  All-set, All-get_elem?, take, drop, take-drop, drop-cons, length-take, add64, ltb, leb, ◌==◌,
  Bool-cases, arith, if◌then◌else◌,
}
use simple_x509_authenticate.Common.Int.{ℤ, ltb_ℤ}
use simple_x509_authenticate.Common.Result.{ok, Returns, Returns-bind, Returns-mono}
use simple_x509_authenticate.Common.Buffer.{Returns-read, Returns-if, Returns-some}
use simple_x509_authenticate.Crypto.Ssl.{OpenSsl}
use simple_x509_authenticate.Crypto.{Extract, PubKey, pub_key_verify}
use simple_x509_authenticate.Crypto.Keys.{Chosen}
use simple_x509_authenticate.Crypto.Trust.{pub_key_verify-Returns}
use simple_x509_authenticate.Server.Scripts.{
  next_number, frame, Keys, Outcome, executed, unauthentic, all_expired, try_key, swap_remove,
  auth_loop, authenticate,
}

module _ (ssl : OpenSsl) where
  -- A key as extract_self_sign_for_code_sign leaves it.
  pub record Usable (key : PubKey ssl) : Type 0 where
    pub small : key.exp_sig_size < 2 ^ 63
    pub oid : Bytes
    pub chosen : Chosen ssl oid key

  -- `buf` is a signature by `key` in front of `script`.
  pub record Signed (key : PubKey ssl) (buf script : Bytes) : Type 0 where
    pub sig : Bytes
    pub framed : buf ≡ frame sig script
    pub size : length sig ≡ key.exp_sig_size
    pub verified : pub_key_verify ssl key script sig ≡ ok true

  -- What is known of a script that was found.
  Found : PubKey ssl → Bytes → Option Bytes → Type 0
  Found key buf none = Unit {0}
  Found key buf (some script) = Signed key buf script

  Found-if :
      (key : PubKey ssl) (buf script : Bytes) (good : Bool)
      → (good ≡ true → Signed key buf script)
      → Found key buf (if good then some script else none)
  unfolding Found
  Found-if key buf script true h = h refl
  Found-if key buf script false h = tt

  framed_lem :
      (buf : Bytes) (n c : ℕ)
      → n < length buf
      → get_elem? buf n ≡ some c
      → c ≡ b'\n'
      → buf ≡ frame (take n buf) (drop (n + 1) buf)
  unfolding frame
  framed_lem buf n c lt at e =
      let next : n + 1 ≡ suc n = omega arith in
      rw (next, ← e) (sym (take-drop n buf) ∙ ap (λ xs. take n buf ++ xs) (drop-cons buf n at))

  try_key-Returns :
      (key : PubKey ssl) (buf : Bytes) → Usable key → Returns (Found key buf) (try_key ssl key buf)
  unfolding try_key Found
  try_key-Returns key buf u =
      let F = Found key buf in
      let n = key.exp_sig_size in
      let script_start = add64 n 1 in
      let small : n < 2 ^ 63 = u.small in
      let start : script_start ≡ n + 1 = omega arith in
      Returns-if F (leb script_start (length buf)) _ _
        (λ fits. Returns-read F buf n _ (ground arith) λ c at.
          Returns-if F (c == b'\n') _ _
            (λ newline.
              Returns-bind _ F (pub_key_verify ssl key (drop script_start buf) (take n buf)) _
                (pub_key_verify-Returns ssl u.oid key _ _ u.chosen)
                λ good verified _. Found-if key buf (drop script_start buf) good λ yes. record {
                  sig = take n buf;
                  framed = rw start (framed_lem buf n c (ground arith) at (ground arith));
                  size = length-take n buf (ground arith);
                  verified = verified ∙ ap ok yes;
                })
            (λ other. tt))
        (λ short. tt)

  -- What is known of the outcome, where `P` holds of the keys that are trusted.
  unfoldable pub Accepted : (PubKey ssl → Type 0) → ℤ → Bytes → Outcome ssl → Type 0
  Accepted P now buf (executed key script) =
      P key × (ltb_ℤ key.expiry now ≡ false) × Signed key buf script
  Accepted P now buf unauthentic = Unit {0}
  Accepted P now buf all_expired = Unit {0}

  module _ (P : PubKey ssl → Type 0) (usable : (key : PubKey ssl) → P key → Usable key) (now : ℤ)
      (buf : Bytes) (bound : ℕ) where
    unfoldable pub Good : Outcome ssl × Keys ssl → Type 0
    Good r = Accepted P now buf r.0 × All P r.1.keys × (r.1.keys_size ≤ length r.1.keys)

    swap_remove-Returns :
        (i : ℕ) (key : PubKey ssl) (ks : Keys ssl)
        → 0 < ks.keys_size
        → ks.keys_size ≤ length ks.keys
        → All P ks.keys
        → P key
        → Returns
            (λ fewer.
              (fewer.keys_size ≡ ks.keys_size - 1)
              × (length fewer.keys ≡ length ks.keys)
              × All P fewer.keys)
            (swap_remove ssl i key ks)
    unfolding swap_remove
    swap_remove-Returns i key ks some_left inside all k =
        let (last, at) = get_elem?-lt ks.keys (ks.keys_size - 1) (omega arith) in
        Returns-some _ _ _ at (
          refl,
          length-set (set ks.keys i last) (ks.keys_size - 1) key ∙ length-set ks.keys i last,
          All-set P (set ks.keys i last) (ks.keys_size - 1) key
              (All-set P ks.keys i last all (All-get_elem? P ks.keys (ks.keys_size - 1) all at)) k,
        )

    -- The end of a round that tried a key; `later` are the rounds behind it.
    Found-Returns :
        (key : PubKey ssl) (ks : Keys ssl) (found : Option Bytes)
        (later : Extract (Outcome ssl × Keys ssl))
        → Found key buf found
        → P key
        → ltb_ℤ key.expiry now ≡ false
        → All P ks.keys
        → ks.keys_size ≤ length ks.keys
        → Returns Good later
        → Returns Good (elim found [
          | some script ↦ ok (executed key script, record ks { script_n = next_number ks.script_n })
          | none ↦ later
        ])
    unfolding Good Accepted Found
    Found-Returns key ks none later f k valid all room h = h
    Found-Returns key ks (some script) later f k valid all room h = ((k, valid, f), all, room)

    auth_loop-Returns :
        (fuel i : ℕ) (ks : Keys ssl)
        → bound - i + ks.keys_size < fuel
        → bound ≤ length ks.keys
        → ks.keys_size ≤ length ks.keys
        → All P ks.keys
        → Returns Good (auth_loop ssl fuel now buf bound i ks)
    unfolding auth_loop Good Accepted
    auth_loop-Returns zero i ks lt inside room all = absurd (omega arith)
    auth_loop-Returns (suc fuel) i ks lt inside room all = elim (Bool-cases (ltb i bound)) [
      | inr done ↦ rw (done, auth_loop) (tt, all, room)
      | inl more ↦
          let below : i < bound = ground arith in
          let (key, at) = get_elem?-lt ks.keys i (omega arith) in
          let k : P key = All-get_elem? P ks.keys i all at in
          rw (more, auth_loop)
            (Returns-some Good _ _ at (elim (Bool-cases (ltb_ℤ key.expiry now)) [
              | inl late ↦ rw late (elim (Bool-cases (ltb 1 ks.keys_size)) [
                | inr only ↦ rw only (tt, all, room)
                | inl others ↦ rw others (
                    Returns-bind _ Good (swap_remove ssl i key ks) _
                      (swap_remove-Returns i key ks (ground arith) room all k)
                      λ fewer _ (less, same, kept).
                        auth_loop-Returns fuel i fewer (ground arith) (ground arith) (ground arith)
                          kept)
              ])
              | inr valid ↦ rw valid (
                  Returns-bind (Found key buf) Good (try_key ssl key buf) _
                    (try_key-Returns key buf (usable key k))
                    λ found _ f.
                      Found-Returns key ks found _ f k valid all room
                        (auth_loop-Returns fuel (suc i) ks (omega arith) inside room all))
            ]))
    ]

    -- The keys in use still are among those that were read.
    pub authenticate-Good :
        (ks : Keys ssl)
        → bound ≡ ks.keys_size
        → ks.keys_size ≤ length ks.keys
        → All P ks.keys
        → Returns Good (authenticate ssl now buf ks)
    unfolding authenticate
    authenticate-Good ks e inside all =
        subst (λ n. Returns Good (auth_loop ssl (suc (ks.keys_size + ks.keys_size)) now buf n 0 ks))
          e
          (auth_loop-Returns (suc (ks.keys_size + ks.keys_size)) 0 ks (omega arith) (omega arith)
            inside all)

-- Where `P` holds of every trusted key and makes it usable, authenticate reads no byte behind what
-- was received, no assert fails and its loop ends. If it executes a script, then what was received
-- is a signature, a newline and this script, and a key that `P` holds of, which has not expired at
-- the time `now`, verifies the signature, of the size of its signatures, on the script. Behind the
-- call `P` holds of every key again.
pub authenticate-Returns :
    (ssl : OpenSsl) (P : PubKey ssl → Type 0)
    → ((key : PubKey ssl) → P key → Usable ssl key)
    → (now : ℤ) (buf : Bytes) (ks : Keys ssl) → ks.keys_size ≤ length ks.keys
    → All P ks.keys
    → Returns (λ r. Accepted ssl P now buf r.0 × All P r.1.keys) (authenticate ssl now buf ks)
unfolding Good
authenticate-Returns ssl P usable now buf ks inside all =
    Returns-mono (Good ssl P usable now buf ks.keys_size) _ _
      (λ r (accepted, kept, room). (accepted, kept))
      (authenticate-Good ssl P usable now buf ks.keys_size ks refl inside all)
