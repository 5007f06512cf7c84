-- ===== src/Custody/Idle.antt =====
-- What xx-team-custody calls, for runs.
use xxchain.Common.{ℕ, ◌+◌, ◌*◌, false, min}
use xxchain.Frame.{ok}
use xxchain.Frame.Coins.{Balances, put, coins}
use xxchain.Custody.Pallet.{Externals}

-- Nothing happens outside of the pallet: accounts of which 500 can always be withdrawn.
abbrev pub idle : Externals ℕ
idle = record {
  transfer = λ source dest value w. (ok tt, w);
  reducible_balance = λ w who keep_alive. 500;
  deposit_creating = λ who value w. w;
  is_bonded = λ w who. false;
  force_unstake = λ who w. (ok tt, w);
  bond = λ stash controller value w. (ok tt, w);
  bond_extra = λ stash value w. (ok tt, w);
  set_controller = λ stash controller w. (ok tt, w);
  take_proxies = λ who w. (0, w);
  unreserve = λ who value w. w;
  add_proxy_delegate = λ who proxy w. (ok tt, w);
  pure_account = λ who index. 1000 * who + index;
}

-- Accounts of a small currency, of which at most 500 can be withdrawn at once.
abbrev pub purse : Externals Balances
purse = record {
  transfer = coins.transfer;
  reducible_balance = λ w who keep_alive. min (w who) 500;
  deposit_creating = λ who value w. put who (w who + value) w;
  is_bonded = λ w who. false;
  force_unstake = λ who w. (ok tt, w);
  bond = λ stash controller value w. (ok tt, w);
  bond_extra = λ stash value w. (ok tt, w);
  set_controller = λ stash controller w. (ok tt, w);
  take_proxies = λ who w. (0, w);
  unreserve = λ who value w. w;
  add_proxy_delegate = λ who proxy w. (ok tt, w);
  pure_account = λ who index. 1000 * who + index;
}
