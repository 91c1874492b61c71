-- ===== src/Tests/Verifier.antt =====
-- The verifier of memberships on a chain with one of them.
use onlykas.Prelude.Int.{pos}
use onlykas.Prelude.{
  arith, ℕ, ◌≡◌, refl, ◌⊎◌, true, false, some, none, Option, List, [], ◌∷◌, inl, get_or,
}
use onlykas.Prelude.Lists.{In}
use onlykas.Map.{get, set, values}
use onlykas.Domain.{MembershipCheck, TokenKind, PreparedMembershipRecord, valid}
use onlykas.Ports.{returns}
use onlykas.Store.Covenants.{get_creator_covenant, list_creator_covenants}
use onlykas.Store.Purchases.{membership_receipts}
use onlykas.Access.{is_active, covenant_ids, any_receipt, any_valid, discover}
use onlykas.Price.{codes}
use onlykas.Verifier.{
  Contract, Node, VerifierUtxo, ChainOutput, ChainTransaction, MembershipState, MembershipPayload,
  chain_verifier, plain, output_script, with_version, is_prefix, output_at, output_covenant_id,
  output_authorizing_input, token_head, token_tail, read_token, member_token, estimate, membership,
  is_unspent, check_token, check_member_output, verify_utxo, is_pointer, find_among,
  find_membership,
}
use onlykas.Verifier.Sound.{IsMembership, check_member_output-IsMembership}
use onlykas.Verifier.Find.{find_membership_lem, IsChecked}
use onlykas.Verifier.Answers.{IsReadable, AreReadable}
use onlykas.Verifier.Complete.{find_membership_complete}
use onlykas.Verifier.OnChain.{IsOnChain, is_active-IsOnChain, bought-IsMembership}
use onlykas.Store.Memberships.{
  get_prepared_membership, save_membership_workflow, delete_membership_workflow,
}
use onlykas.Store.Purchases.{finalize_membership_purchase, create_membership_purchase}
use onlykas.Membership.Finalize.{purchase_finalize, settle, find_prepared, accept_purchase}
use onlykas.Tests.Fixtures.{shop}
use onlykas.Tests.Memberships.{gateway_of, accepted, counter}

abbrev token_state : MembershipState
token_state = record {
  creator = "alice";
  platform = "site";
  owner = "bob";
  expires_at_daa = pos 90;
  price_sompi = pos 5;
  is_minter = false;
}

abbrev minting : MembershipPayload
minting = record {
  version = 1;
  member_redeem_script = "redeem";
  metadata = record {
    platform_address = "site";
    membership_output_index = 1;
    created_at_daa = pos 1;
    expires_at_daa = pos 90;
  };
}

abbrev contract : Contract
contract = record {
  parse_payload = λ p. some minting;
  decode = λ r. some token_state;
  script = λ s. returns "0000aa";
  address = λ s. returns "token";
  public_key = λ a. returns a;
  key_address = λ k. some k;
}

abbrev output : ChainOutput
output = record {
  script_public_key = some (plain "aa");
  script_public_key_camel = none;
  covenant_id = some "cov1";
  covenant_id_camel = none;
  covenant_authorizing_input = some 0;
  authorizing_input = none;
  covenant = none;
}

abbrev minted : ChainTransaction
minted = record {
  version = some 1;
  is_accepted = some true;
  payload = some "payload";
  outputs = some (output ∷ output ∷ []);
}

abbrev pointer : VerifierUtxo
pointer = record { transaction_id = "t9"; index = 1; amount = some 50_000_000 }

abbrev node : Node
node = record {
  now = 1_000_000;
  transaction = λ id. returns minted;
  current_daa = returns 50;
  utxos = λ a. returns (pointer ∷ []);
}

abbrev found : MembershipCheck
found = record {
  transaction_id = "t9";
  output_index = 1;
  covenant_id = some "cov1";
  kind = TokenKind.token;
  owner = some "bob";
  content_creator = some "alice";
  platform_address = some "site";
  created_at_daa = some (pos 1);
  expires_at_daa = some (pos 90);
  created_at = some (pos 995_100);
  valid_until = some (pos 1_004_000);
  status = valid;
}

script : output_script output ≡ some "0000aa"
unfolding output_script with_version is_prefix codes
script = refl

member :
    member_token contract 1 minted (some "cov1")
    ≡ returns (some (record { covenant_id = "cov1"; payload = minting; state = token_state }))
unfolding member_token token_head token_tail read_token output_script with_version is_prefix codes
    output_at output_covenant_id output_authorizing_input
member = refl

checked :
    check_member_output contract node "t9" 1 minted 50 (some "bob") (some "cov1") (some "alice")
    ≡ returns found
unfolding check_member_output check_token is_unspent membership estimate member_token token_head
    token_tail read_token output_script with_version is_prefix codes output_at output_covenant_id
    output_authorizing_input
checked = refl

-- Every state is readable there.
readable : IsReadable contract node 50 minted
unfolding estimate
readable p s e f = (
  ("0000aa", refl),
  ("token", refl),
  (pos 995_100, ground (arith, e)),
  (pos 1_004_000, ground (arith, f)),
)

all_readable : AreReadable contract node 50 (pointer ∷ [])
all_readable u i = (minted, refl, readable)

is_membership :
    IsMembership contract node "t9" 1 minted 50 (some "bob") (some "cov1") (some "alice") found
is_membership =
    check_member_output-IsMembership contract node "t9" 1 minted 50 (some "bob") (some "cov1")
      (some "alice") found checked refl

finds : find_membership contract node "bob" "alice" (some "cov1") ≡ returns (some found)
unfolding find_membership find_among
finds = rw checked refl

find_membership_complete_example :
    (d : MembershipCheck) × (find_membership contract node "bob" "alice" (some "cov1")
      ≡ returns (some d))
find_membership_complete_example =
    find_membership_complete contract node (λ a. (pointer ∷ [], refl)) "bob" "alice" "bob" "alice"
      refl refl (some "cov1") (pointer ∷ []) 50 refl refl all_readable pointer minted found
      (inl refl) refl refl is_membership

is_active-IsOnChain_example : IsOnChain contract node "bob" "alice"
unfolding is_active any_receipt any_valid discover membership_receipts covenant_ids
    get_creator_covenant list_creator_covenants get values chain_verifier verify_utxo
    find_membership find_among check_member_output check_token is_unspent membership estimate
    member_token token_head token_tail read_token output_script with_version is_prefix codes
    output_at output_covenant_id output_authorizing_input
is_active-IsOnChain_example = is_active-IsOnChain contract node "bob" "alice" shop refl

find_membership_lem_example :
    (us : List VerifierUtxo) × (daa : ℕ) × (node.utxos "bob" ≡ returns us)
    × (node.current_daa ≡ returns daa)
    × (((◌≡◌ {A = Option MembershipCheck} (some found) none)
          × ((u : VerifierUtxo)
              → In u us
              → is_pointer contract node u ≡ true
              → (c : MembershipCheck) × IsChecked contract node daa "bob" "alice" (some "cov1") u c
                × ¬ (c.status ≡ valid)))
        ⊎ ((c : MembershipCheck) × (◌≡◌ {A = Option MembershipCheck} (some found) (some c))
            × ((u : VerifierUtxo) × In u us
                × (is_pointer contract node u ≡ true)
                × ((t : ChainTransaction) × (node.transaction u.transaction_id ≡ returns t)
                    × IsMembership contract node u.transaction_id 1 t daa
                        (some "bob")
                        (some "cov1")
                        (some "alice")
                        c))))
find_membership_lem_example =
    find_membership_lem contract node "bob" "alice" (some "cov1") (some found) finds

bought-IsMembership_example :
    (v : PreparedMembershipRecord) × (v.buyer ≡ "bob")
    × (get_or v.member_output_index 0 ≡ 1)
    × ((w : ChainTransaction) × (daa : ℕ) × (c : MembershipCheck) × (node.transaction "t9"
          ≡ returns w)
        × IsMembership contract node "t9" 1 w daa
            (some v.buyer)
            (some v.covenant_id)
            (some v.creator)
            c)
unfolding purchase_finalize settle find_prepared get_prepared_membership get accept_purchase
    finalize_membership_purchase create_membership_purchase save_membership_workflow
    delete_membership_workflow set chain_verifier verify_utxo check_member_output check_token
    is_unspent membership estimate member_token token_head token_tail read_token output_script
    with_version is_prefix codes output_at output_covenant_id output_authorizing_input
bought-IsMembership_example =
    bought-IsMembership contract node "m1" 20 (gateway_of accepted) "bob" (some "signed") 20 counter
      "t9" refl
