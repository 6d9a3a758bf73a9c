-- ===== src/Recovery/Tests.antt =====
-- Recovery at concrete tables.
use tool_trade.Common.{◌≡◌, refl, some, arith, ◌*ℤ◌}
use tool_trade.Decimal
use tool_trade.Samples.{sample_signal, sample_db}
use tool_trade.Text.{codes, strip}
use tool_trade.SignalRepository.Calls.{IsTable}
use tool_trade.Recovery.{recover, recovered}
use tool_trade.Recovery.Slot.{recover_slot}

sample_db-IsTable : IsTable sample_db
unfolding Decimal.le ◌*ℤ◌
sample_db-IsTable = record {
  slot = λ symbol. ground arith;
  ids = λ i. ground arith;
  fresh = omega arith;
  rows = ((((refl, refl), refl, refl, refl), (λ _. (refl, refl), λ _ e. cc, λ e. cc, λ e. cc)), tt);
}

recover_slot_example : recover (some (codes "BTCUSDT")) sample_db ≡ recovered sample_signal
unfolding strip
recover_slot_example =
    recover_slot (codes "BTCUSDT") sample_db sample_db-IsTable refl (omega arith) (omega arith)
