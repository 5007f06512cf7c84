-- ===== src/Network/Dispatcher.antt =====
-- The dispatch of the runtime of runtime/xxnetwork/src/lib.rs: the bridge's proposals are calls of the
-- runtime, with BaseFilter before them, and the swap pallet shares the currency with all others.
use xxchain.Common.{ℕ, Option, List}
use xxchain.Frame.{Origin, DispatchResult, other, within, ensure, ◌>>◌}
use xxchain.Frame.Currency.{Currency}
use xxchain.Chainbridge.Storage.{Runtime, Dispatch}
use xxchain.Swap.Authority
use xxchain.Swap.Pallet.{Config, Swap, Event}
use xxchain.Network.Filter.{RuntimeCall, contains}

-- The storage of the swap pallet and of the currency, beside that of the bridge.
pub record World (Bank : Type 0) : Type 0 where
  pub bank : Bank
  pub swap_fee : ℕ
  pub fee_destination : Option ℕ
  pub swap_events : List Event

module _ {Bank : Type 0} where
  -- The storage as the swap pallet sees it.
  abbrev pub swap_storage : Runtime (World Bank) → Swap Bank
  swap_storage rt = record {
    bridge = rt.bridge;
    bank = rt.world.bank;
    swap_fee = rt.world.swap_fee;
    fee_destination = rt.world.fee_destination;
    events = rt.world.swap_events;
  }

  abbrev pub put_swap_storage : Runtime (World Bank) → Swap Bank → Runtime (World Bank)
  put_swap_storage rt s = record {
    bridge = s.bridge;
    world = record {
      bank = s.bank;
      swap_fee = s.swap_fee;
      fee_destination = s.fee_destination;
      swap_events = s.events;
    };
  }

module _ (config : Config) {Bank : Type 0} (currency : Currency Bank) (decode : ℕ → RuntimeCall)
    (filtered : ℕ) (others : RuntimeCall → Origin → DispatchResult (Runtime (World Bank))) where
  -- A call that the filter lets through, in its pallet.
  abbrev pub dispatch_call : RuntimeCall → Origin → DispatchResult (Runtime (World Bank))
  dispatch_call (RuntimeCall.swap c) o =
      within swap_storage put_swap_storage (Authority.run config currency o c)
  dispatch_call c o = others c o

  -- The dispatch of the bridge in this runtime: `decode` reads a proposal as a call, `filtered` is the
  -- error of a call that BaseFilter refuses.
  abbrev pub dispatch : Dispatch (World Bank)
  dispatch prop o =
      ensure (contains (decode prop)) (other filtered) >> dispatch_call (decode prop) o
