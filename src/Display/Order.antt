-- ===== src/Display/Order.antt =====
-- The display order of instances is an order for `sort`.
use compshare_agent.Prelude.{ℕ, Bool, true, false, ◌≡◌, arith}
use compshare_agent.Prelude.Sorting.{IsOrder}
use compshare_agent.Prelude.TextOrder.{str_less-IsOrder}
use compshare_agent.Display.{
  start_time_less, rank_less, state_display_rank, instance_display_less, row_less,
}

start_time-asym :
    (m n : ℕ) (p q : Bool)
    → (p ≡ true → q ≡ false)
    → start_time_less m n p ≡ true
    → start_time_less n m q ≡ false
unfolding start_time_less
start_time-asym m n p q h e = ground (arith, h, e)

start_time_trans :
    (k m n : ℕ) (p q o : Bool)
    → (p ≡ false → q ≡ false → o ≡ false)
    → start_time_less m k p ≡ false
    → start_time_less n m q ≡ false
    → start_time_less n k o ≡ false
unfolding start_time_less
start_time_trans k m n p q o h e f = ground (arith, h, e, f)

rank-asym :
    (m n : ℕ) (p q : Bool)
    → (p ≡ true → q ≡ false)
    → rank_less m n p ≡ true
    → rank_less n m q ≡ false
unfolding rank_less
rank-asym m n p q h e = ground (arith, h, e)

rank_trans :
    (k m n : ℕ) (p q o : Bool)
    → (p ≡ false → q ≡ false → o ≡ false)
    → rank_less m k p ≡ false
    → rank_less n m q ≡ false
    → rank_less n k o ≡ false
unfolding rank_less
rank_trans k m n p q o h e f = ground (arith, h, e, f)

pub instance_display_less-IsOrder : IsOrder instance_display_less
unfolding instance_display_less
instance_display_less-IsOrder = record {
  asym = λ a b. rank-asym (state_display_rank a.state) (state_display_rank b.state) _ _ (
      start_time-asym a.start_time b.start_time _ _
        (str_less-IsOrder.asym a.u_host_id b.u_host_id));
  trans = λ a b c.
      rank_trans (state_display_rank a.state) (state_display_rank b.state)
        (state_display_rank c.state) _ _ _
        (start_time_trans a.start_time b.start_time c.start_time _ _ _
          (str_less-IsOrder.trans a.u_host_id b.u_host_id c.u_host_id));
}

pub row_less-IsOrder : IsOrder row_less
row_less-IsOrder = record {
  asym = λ a b. instance_display_less-IsOrder.asym a.snap b.snap;
  trans = λ a b c. instance_display_less-IsOrder.trans a.snap b.snap c.snap;
}
