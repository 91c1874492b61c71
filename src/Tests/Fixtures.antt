-- ===== src/Tests/Fixtures.antt =====
-- A small shop: a creator with one post, a buyer with one payment under way, a challenge and a session.
use onlykas.Prelude.{true, none, some, [], ◌∷◌, arith}
use onlykas.Locale.{Locale}
use onlykas.Domain.{
  Challenge, Session, Profile, Post, Purchase, PreparedPaymentRecord, PaymentWorkflow,
  CreatorCovenant, image_png, submitted,
}
use onlykas.Domain
use onlykas.Map.{get}
use onlykas.Ports.{returns, throws, PaymentGateway}
use onlykas.Store.{Store, empty}
use onlykas.Store.Keys.{IsKeyed}
use onlykas.Store.Purchases.{purchase_key}
use onlykas.Reconcile.{Reconciler, Pass}

abbrev pub picture : Post
picture = record {
  id = "p1";
  creator = "alice";
  caption = "sea";
  price_sompi = "100";
  media_type = image_png;
  media_size = 7;
  media_digest = "ab12";
  media_key = "media/alice/ab/ab12";
  published_at = 3;
}

abbrev pub challenge : Challenge
challenge = record {
  id = "c1";
  nonce = "n";
  address = "bob";
  origin = "https://only.kas";
  network = "testnet-10";
  message = "sign n";
  expires_at = 50;
  consumed_at = none;
}

abbrev pub session : Session
session = record { id = "s1"; address = "bob"; expires_at = 90 }

abbrev pub profile : Profile
profile = record {
  address = "alice";
  display_name = some "Alice";
  is_public = true;
  updated_at = 1;
}

abbrev pub receipt : Purchase
receipt = record { post_id = "p1"; buyer = "carol"; transaction_id = "t0" }

abbrev pub prepared : PreparedPaymentRecord
prepared = record {
  id = "pay1";
  transaction = "tx";
  fingerprint = "f";
  amount_sompi = "100";
  creator = "alice";
  post_id = "p1";
  buyer = "bob";
  expires_at = 60;
}

abbrev pub workflow : PaymentWorkflow
workflow = record {
  prepared_payment_id = "pay1";
  state = submitted;
  transaction_id = "t1";
  rejection = none;
  submitted_at = some 10;
  finalized_at = none;
}

abbrev pub covenant : CreatorCovenant
covenant = record {
  creator = "alice";
  covenant_id = "cov1";
  price_sompi = "5";
  status = some Domain.active;
}

abbrev pub ended : CreatorCovenant
ended = record {
  creator = "dora";
  covenant_id = "cov2";
  price_sompi = "6";
  status = some Domain.canceled;
}

abbrev pub shop : Store
shop = record empty {
  challenges = ("c1", challenge) ∷ [];
  sessions = ("s1", session) ∷ [];
  profiles = ("alice", profile) ∷ [];
  posts = ("p1", picture) ∷ [];
  purchases = ("p1:carol", receipt) ∷ [];
  creator_covenants = ("alice", covenant) ∷ ("dora", ended) ∷ [];
  creator_covenant_history = ("cov1", covenant) ∷ ("cov2", ended) ∷ [];
  prepared_payment_records = ("pay1", prepared) ∷ [];
  payment_workflows = ("pay1", workflow) ∷ [];
}

pub shop-IsKeyed : IsKeyed shop
unfolding get purchase_key
shop-IsKeyed = ground arith

abbrev pub any_locale : Locale
any_locale = record { lower = λ t. t; includes = λ t u. true; collate = λ t u. true }

-- The node has accepted every transaction.
abbrev pub accepting : PaymentGateway
accepting = record {
  prepare = λ post buyer. throws;
  submit = λ payment signed. throws;
  status = λ transaction.
      returns
        (record { is_accepted = some true; transaction_id = some transaction; rejection = none });
  verify_purchase = λ transaction buyer creator amount post digest. returns true;
}

abbrev pub reconciler : Reconciler
reconciler = record {
  locale = any_locale;
  payment_gateway = some accepting;
  membership_gateway = none;
  membership_verifier = none;
  batch_size = 100;
  stale_workflow_ms = 1000;
}

abbrev pub begun : Pass
begun = record {
  summary = record { scanned = 0; confirmed = 0; rejected = 0; retried = 0; abandoned = 0 };
  store = shop;
}
