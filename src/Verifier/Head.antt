-- ===== src/Verifier/Head.antt =====
-- backend/src/verifier.ts: the member token that the tests at the head of `checkMemberOutput` find.
use mathlib.Core.Path.{subst}
use onlykas.Prelude.{
  ℕ, String, ◌≡◌, Bool, true, false, Option, none, some, arith, ◌==◌, eq_iff, get_or, inl, inr,
  Bool-cases, Option-cases,
}
use onlykas.Ports.{returns, Call-cases}
use onlykas.Verifier.{
  Contract, ChainOutput, ChainTransaction, Token, output_covenant_id, output_authorizing_input,
  output_script, find_output, equals, is_number, matches, member_token, token_head, token_tail,
  read_token,
}

-- The transaction is accepted and of version 1, and the output of that index, which is 1, carries the
-- covenant, is authorized by input 0, and has the script of a state, of a member and not of a minter,
-- that the payload of the transaction holds.
pub record IsToken (contract : Contract) (index : ℕ) (t : ChainTransaction) (k : Token)
    : Type 0 where
  pub output : ChainOutput
  pub found : find_output t index ≡ some output
  pub is_second : index ≡ 1
  pub is_accepted : t.is_accepted ≡ some true
  pub version : t.version ≡ some 1
  pub covenant : output_covenant_id (some output) ≡ some k.covenant_id
  pub has_covenant : (k.covenant_id == "") ≡ false
  pub payload : contract.parse_payload t.payload ≡ some k.payload
  pub state : contract.decode k.payload.member_redeem_script ≡ some k.state
  pub is_member : k.state.is_minter ≡ false
  pub script : String
  pub has_script : contract.script k.state ≡ returns script
  pub pays : output_script output ≡ some script
  pub authorized : output_authorizing_input output ≡ some 0

module _ (contract : Contract) where
  equals_iff : (v : Option String) (w : String) → equals v w ≡ true → v ≡ some w
  equals_iff none w h = cc
  equals_iff (some v) w h = ground (arith, h, eq_iff v w)

  is_number_iff : (v : Option ℕ) (n : ℕ) → is_number v n ≡ true → v ≡ some n
  is_number_iff none n h = cc
  is_number_iff (some m) n h = ground (arith, h)

  accepted_iff : (v : Option Bool) → get_or v false ≡ true → v ≡ some true
  accepted_iff none h = cc
  accepted_iff (some b) h = ground (arith, h)

  tests-IsToken :
      (index : ℕ) (t : ChainTransaction) (expected : Option String) (output : ChainOutput)
      (k : Token) (script : String)
      → find_output t index ≡ some output
      → output_covenant_id (some output) ≡ some k.covenant_id
      → contract.parse_payload t.payload ≡ some k.payload
      → contract.decode k.payload.member_redeem_script ≡ some k.state
      → token_head contract index t k.covenant_id k.state ≡ true
      → contract.script k.state ≡ returns script
      → token_tail contract output expected k.covenant_id script ≡ true
      → IsToken contract index t k × (matches expected k.covenant_id ≡ true)
  unfolding token_head token_tail
  tests-IsToken index t expected output k script e f g d h w i = (
    record {
      output = output;
      found = e;
      is_second = ground (arith, h);
      is_accepted = accepted_iff t.is_accepted (ground (arith, h));
      version = is_number_iff t.version 1 (ground (arith, h));
      covenant = f;
      has_covenant = ground (arith, h);
      payload = g;
      state = d;
      is_member = ground (arith, h);
      script = script;
      has_script = w;
      pays = equals_iff (output_script output) script (ground (arith, i));
      authorized = is_number_iff (output_authorizing_input output) 0 (ground (arith, i));
    },
    ground (arith, i),
  )

  move :
      (index : ℕ) (t : ChainTransaction) (expected : Option String) (k l : Token)
      → k ≡ l
      → IsToken contract index t k × (matches expected k.covenant_id ≡ true)
      → IsToken contract index t l × (matches expected l.covenant_id ≡ true)
  move index t expected k l e h =
      subst (λ k. IsToken contract index t k × (matches expected k.covenant_id ≡ true)) e h

  read_token-IsToken :
      (index : ℕ) (t : ChainTransaction) (expected : Option String) (output : ChainOutput)
      (w k : Token)
      → find_output t index ≡ some output
      → output_covenant_id (some output) ≡ some w.covenant_id
      → contract.parse_payload t.payload ≡ some w.payload
      → contract.decode w.payload.member_redeem_script ≡ some w.state
      → read_token contract index t expected output w ≡ returns (some k)
      → IsToken contract index t k × (matches expected k.covenant_id ≡ true)
  unfolding read_token
  read_token-IsToken index t expected output w k e f g d h =
      elim (Bool-cases (token_head contract index t w.covenant_id w.state)) [
        | inr n ↦ absurd (ground (arith, n, h))
        | inl y ↦ elim (Call-cases (contract.script w.state)) [
          | inl c ↦ absurd (ground (arith, y, c, h))
          | inr (script, c) ↦
              elim (Bool-cases (token_tail contract output expected w.covenant_id script)) [
                | inr n ↦ absurd (ground (arith, y, c, n, h))
                | inl z ↦
                    move index t expected w k (ground (arith, y, c, z, h))
                      (tests-IsToken index t expected output w script e f g d y c z)
              ]
        ]
      ]

  pub member_token-IsToken :
      (index : ℕ) (t : ChainTransaction) (expected : Option String) (k : Token)
      → member_token contract index t expected ≡ returns (some k)
      → IsToken contract index t k × (matches expected k.covenant_id ≡ true)
  unfolding member_token
  member_token-IsToken index t expected k h = elim (Option-cases (find_output t index)) [
    | inl e ↦ absurd (ground (arith, e, h))
    | inr (output, e) ↦ elim (Option-cases (output_covenant_id (some output))) [
      | inl f ↦ absurd (ground (arith, e, f, h))
      | inr (id, f) ↦ elim (Option-cases (contract.parse_payload t.payload)) [
        | inl g ↦ absurd (ground (arith, e, f, g, h))
        | inr (payload, g) ↦ elim (Option-cases (contract.decode payload.member_redeem_script)) [
          | inl d ↦ absurd (ground (arith, e, f, g, d, h))
          | inr (state, d) ↦
              read_token-IsToken index t expected output
                (record { covenant_id = id; payload = payload; state = state }) k e f g d
                (ground (arith, e, f, g, d, h))
        ]
      ]
    ]
  ]

  IsToken-head :
      (index : ℕ) (t : ChainTransaction) (k : Token)
      → IsToken contract index t k
      → token_head contract index t k.covenant_id k.state ≡ true
  unfolding token_head
  IsToken-head index t k i =
      ground (arith, i.is_accepted, i.version, i.is_second, i.has_covenant, i.is_member)

  IsToken-tail :
      (index : ℕ) (t : ChainTransaction) (expected : Option String) (k : Token)
      (i : IsToken contract index t k)
      → matches expected k.covenant_id ≡ true
      → token_tail contract i.output expected k.covenant_id i.script ≡ true
  unfolding token_tail
  IsToken-tail index t expected k i m =
      ground (arith, m, i.pays, i.authorized, eq_iff i.script i.script)

  pub IsToken-member_token :
      (index : ℕ) (t : ChainTransaction) (expected : Option String) (k : Token)
      → IsToken contract index t k
      → matches expected k.covenant_id ≡ true
      → member_token contract index t expected ≡ returns (some k)
  unfolding member_token read_token
  IsToken-member_token index t expected k i m = ground (
    arith,
    i.found,
    i.covenant,
    i.payload,
    i.state,
    i.has_script,
    IsToken-head index t k i,
    IsToken-tail index t expected k i m,
  )
