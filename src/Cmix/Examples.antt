-- ===== src/Cmix/Examples.antt =====
-- Runs of xx-cmix/src/lib.rs.
use xxchain.Common.{ℕ, ◌≡◌, refl, false, none, List, [], ◌∷◌}
use xxchain.Frame.{Origin, Refuses}
use xxchain.Cmix.Variables.{SoftwareHashes, Variables}
use xxchain.Cmix.Pallet.{Config, Staking, Cmix, get_block_points, end_era}
use xxchain.Cmix.Authority.{Call, set_cmix_hashes, set_next_cmix_variables, run, cmix-Refuses}
use xxchain.Cmix.Era.{run_all, last_proposed, or_current, end_era_lem}

abbrev test_config : Config
test_config = record { cmix_variables_origin = λ o. false; admin_origin = λ o. false }

-- A staking pallet that keeps the last list.
abbrev last_list : Staking (List (ℕ × ℕ))
last_list = record { reward_by_ids = λ l w. l; deduct_by_ids = λ l w. w }

abbrev test_hashes : SoftwareHashes
test_hashes = record {
  server = 1;
  fatbin = 2;
  libpow = 3;
  gateway = 4;
  scheduling = 5;
  wrapper = 6;
  udb = 7;
  notifications = 8;
  extra = none;
}

abbrev with_points : ℕ → Variables
with_points n = record {
  performance = record {
    period = 10;
    points = record { success = 1; failure = 1; block = n };
    countries = [];
    multipliers = [];
  };
  timeouts = record { precomputation = 1; realtime = 1; advertisement = 1 };
  scheduling = record { team_size = 5; batch_size = 10; min_delay = 1; pool_threshold = 1 };
  registration = record { max_registrations = 1; period = 1 };
}

-- Block 100, and the permission to set hashes ended at block 50.
abbrev late : Cmix (List (ℕ × ℕ))
late = record {
  cmix_hashes = test_hashes;
  admin_permission = 50;
  scheduling_account = none;
  cmix_address_space = 16;
  next_cmix_variables = none;
  cmix_variables = with_points 20;
  block_number = 100;
  staking = [];
  events = [];
}

cmix-Refuses_example :
    Refuses (run test_config last_list Origin.root (set_cmix_hashes test_hashes)) late
cmix-Refuses_example =
    cmix-Refuses test_config last_list late Origin.root (set_cmix_hashes test_hashes) refl

abbrev two_proposals : List (Origin × Call)
two_proposals =
    (Origin.root, set_next_cmix_variables (with_points 30))
    ∷ (Origin.signed 5, set_next_cmix_variables (with_points 40))
    ∷ []

end_era_lem_example :
    let t = run_all test_config last_list two_proposals late in
    (t.cmix_variables ≡ with_points 20)
    × (get_block_points t ≡ get_block_points late)
    × ((end_era t).cmix_variables
        ≡ or_current test_config last_list
            (last_proposed test_config last_list two_proposals none)
            (with_points 20))
    × ((end_era t).next_cmix_variables ≡ none)
end_era_lem_example = end_era_lem test_config last_list two_proposals late
