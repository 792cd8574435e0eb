-- ===== src/Node/System/Tests/Sales.antt =====
-- The program of the tests with collateral in an account: an order rests.
use mmperp.Prelude.{ℕ, ◌≡◌, refl, some, [], ◌∷◌, ◌++◌, insert, replicate}
use mmperp.Prelude.Int.{pos, ◌-ℤ◌}
use mmperp.Common.Ring.{push, pop}
use mmperp.Ingress.{Frame, new_order, next_new_order}
use mmperp.Ingress.Arrivals.{queued_frames}
use mmperp.Auth.{verify_frame, register_account}
use mmperp.Node.Fills.{Node}
use mmperp.Node.Orders.{handle_new_order}
use mmperp.Node.Start.{configure_all, auth_verifier}
use mmperp.Node.System.{Run, begin, and_then, arrives, takes_order, arrive}
use mmperp.Node.Positions.{net}
use mmperp.Node.Tracked.{IsTracked}
use mmperp.Node.System.Settled.{AllUnused, Run-net}
use mmperp.Common.Types.{Side, sell}
use mmperp.Ingress.Messages.{encode_new_order}
use mmperp.Risk.Types.{RiskEngine}
use mmperp.Risk.Engine.{credit_collateral}
use mmperp.Node.System.Tests.{environment, loaded, program, boots}

abbrev funded : RiskEngine
funded = credit_collateral program.node.risk 1 (pos 1000000)

abbrev rich : Node
rich = record program.node { risk = funded }

abbrev trading : Side → ℕ → Frame
trading side nonce = record {
  header = record {
    account = 1;
    nonce = nonce;
    received_time_ns = pos 9;
    priority = 0;
    kind = new_order;
  };
  payload =
      encode_new_order record { side = side; quantity = pos 5; price = pos 6; flags = 0 }
      ++ replicate 45 0;
}

abbrev with_sale : Node
with_sale = arrive rich (trading sell 1)

abbrev sold : Node
sold =
    handle_new_order (record with_sale { ingress = (next_new_order with_sale.ingress).1 })
      (trading sell 1)

sale_found :
    next_new_order with_sale.ingress ≡ (some (trading sell 1), (next_new_order with_sale.ingress).1)
unfolding next_new_order arrive pop auth_verifier mmperp.Auth.verify insert ◌-ℤ◌ push
    encode_new_order mmperp.Common.Bytes.to_bytes
sale_found = refl

sale_ran : Run rich (trading sell 1 ∷ []) (trading sell 1 ∷ []) sold
unfolding queued_frames auth_verifier mmperp.Auth.verify insert ◌-ℤ◌ push arrive encode_new_order
    mmperp.Common.Bytes.to_bytes
sale_ran =
    and_then (and_then begin (arrives rich (trading sell 1)))
      (takes_order with_sale (trading sell 1) (next_new_order with_sale.ingress).1 sale_found)

sale_ran-AllUnused : AllUnused sale_ran
unfolding sale_ran arrive configure_all
sale_ran-AllUnused = ((tt, tt), refl)

Run-net_example :
    (net 1 sold.risk.accounts ≡ net 1 funded.accounts)
    × IsTracked sold.default_market sold.matcher sold.resting_orders
Run-net_example =
    Run-net environment loaded program funded (trading sell 1 ∷ []) (trading sell 1 ∷ []) sold 1
      boots sale_ran sale_ran-AllUnused
