-- ===== src/Tests/Offers.antt =====
-- Covenants at concrete inputs.
use onlykas.Prelude.{◌≡◌, refl, none, some, List, [], ◌∷◌}
use onlykas.Domain.{CreatorCovenant, created}
use onlykas.Map.{get}
use onlykas.Store.Op.{Op}
use onlykas.Store.Covenants.{get_creator_covenant, finalize_price_update}
use onlykas.Store.Offers.{shown, price_update_revives_canceled}
use onlykas.Tests.Fixtures.{shop, covenant, ended}

abbrev offers : List Op
offers = Op.finalize_offer "m1" covenant ∷ Op.finalize_cancellation "m2" "alice" "cov1" ∷ []

abbrev renewed : CreatorCovenant
renewed = record { creator = "dora"; covenant_id = "cov2"; price_sompi = "9"; status = none }

price_update_revives_canceled_example :
    (get_creator_covenant "dora" shop ≡ none)
    × ((finalize_price_update "m3" renewed shop).0 ≡ created)
    × (get_creator_covenant "dora" (finalize_price_update "m3" renewed shop).1
        ≡ some (shown renewed))
unfolding get
price_update_revives_canceled_example =
    price_update_revives_canceled "m3" renewed ended shop refl refl refl
