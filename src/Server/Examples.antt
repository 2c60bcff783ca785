-- ===== src/Server/Examples.antt =====
-- Some requests for the server of src/main.cpp, and the theorems at them.
use orderflow_replay_engine.Prelude.{
  ◌≡◌, refl, List, [], ◌∷◌, none, some, String, ℤ, pos, false, str_eq, if◌then◌else◌,
}
use orderflow_replay_engine.Text.{
  is_empty_text, find_text, has_prefix, after_code, skip_blanks, until,
}
use orderflow_replay_engine.Double.{Double, ticks_double}
use orderflow_replay_engine.Engine.{Host, Clock}
use orderflow_replay_engine.Engine.Fields.{jget, value_found, value_at}
use orderflow_replay_engine.Engine.Orders.{order_command}
use orderflow_replay_engine.Engine.Commands.{globals}
use orderflow_replay_engine.Server.{new_server}
use orderflow_replay_engine.Server.Routes.{
  Request, get_status, post_order, delete_order, post_reset, order_route, respond_all,
}
use orderflow_replay_engine.Server.Running.{IsUp, respond_all-IsUp}
use orderflow_replay_engine.Server.Percentiles.{AreUncomputed, respond_all-AreUncomputed}
use orderflow_replay_engine.Server.Agreement.{body_of, order_route-order_command}

instance abbrev ticks : Double ℤ
ticks = ticks_double

abbrev some_host : Host ℤ
some_host = record {
  stod = λ s. if str_eq s "100" then some (pos 1_000_000) else none;
  stoi = λ s. if str_eq s "5" then some (pos 5) else none;
  stoll = λ s. if str_eq s "20" then some (pos 20) else none;
  stoull = λ s. if str_eq s "1" then some 1 else none;
  sort_samples = λ xs. xs;
  sort_ticks = λ ts. ts;
  draws = λ seed volatility. record {
    noise = λ i. pos 0;
    bid_qty = λ i. pos 100;
    ask_qty = λ i. pos 200;
    last_qty = λ i. pos 300;
  };
  shown = λ x. "0.0000";
}

abbrev some_clock : Clock
some_clock = record {
  snapshot = pos 1;
  submit = record {
    start = pos 1;
    rate_check = pos 2;
    approval = pos 3;
    stamp = pos 4;
    trade = λ n. pos 5;
    finish = pos 6;
  };
  step = λ i. (pos 7, pos 8);
  replay = λ i. record {
    start = pos 1;
    tick_start = pos 1;
    tick_finish = pos 2;
    snapshot = pos 3;
    finish = pos 9;
  };
  replay_submit = λ id. record {
    start = pos 1;
    rate_check = pos 2;
    approval = pos 3;
    stamp = pos 4;
    trade = λ n. pos 5;
    finish = pos 6;
  };
  replay_elapsed = pos 10;
}

abbrev an_order : String
an_order = "{\"symbol\":\"AAPL\",\"side\":\"BUY\",\"price\":100,\"qty\":20}"

abbrev some_requests : List (Clock × Request)
some_requests =
    (some_clock, post_order an_order)
    ∷ (some_clock, delete_order "1" "AAPL")
    ∷ (some_clock, get_status)
    ∷ (some_clock, post_reset)
    ∷ []

respond_all-IsUp_example :
    let v = (respond_all some_host some_requests (new_server some_host)).0 in IsUp v.limits v.sim
respond_all-IsUp_example = respond_all-IsUp some_host some_requests

respond_all-AreUncomputed_example :
    let v = (respond_all some_host some_requests (new_server some_host)).0 in
    AreUncomputed v.limits v.sim
respond_all-AreUncomputed_example = respond_all-AreUncomputed some_host some_requests

names_symbol : is_empty_text (jget an_order "symbol") ≡ false
unfolding jget find_text has_prefix value_found after_code skip_blanks value_at until
names_symbol = refl

has_no_market_price : some_host.stod (jget an_order "market_price") ≡ none
unfolding jget find_text has_prefix value_found after_code skip_blanks value_at until
has_no_market_price = refl

order_route-order_command_example :
    ((order_route some_host some_clock an_order (new_server some_host)).0.sim
      ≡ (order_command some_host some_clock an_order
          (record globals { sim = (new_server some_host).sim })).0.sim)
    × (body_of (order_route some_host some_clock an_order (new_server some_host)).1
        ≡ (order_command some_host some_clock an_order
            (record globals { sim = (new_server some_host).sim })).1)
order_route-order_command_example =
    order_route-order_command some_host some_clock an_order (new_server some_host) globals
      names_symbol has_no_market_price
