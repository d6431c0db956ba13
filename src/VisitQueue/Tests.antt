-- ===== src/VisitQueue/Tests.antt =====
-- Runs of the visit queue of iiod/spf-visit-queue.c.
use libiio.Prelude.{◌-◌, ◌*◌, ◌≤◌, ◌≡◌, refl, false, List, [], ◌∷◌, some}
use libiio.VisitQueue
use libiio.VisitQueue.{Config, Queue, Slice, complete}
use libiio.VisitQueue.Feed
use libiio.VisitQueue.Ops
use libiio.VisitQueue.Ops.{View}
use libiio.VisitQueue.Accounts.{IsAccounted, IsWithinHeadroom}
use libiio.VisitQueue.Step.{Op, reserve, bind, feed, close_window, step, run, run-IsAccounted}
use libiio.VisitQueue.Cover.{sum_slices}
use libiio.VisitQueue.Complete.{complete_view-covers}

abbrev config : Config
config = record {
  block_count = 4;
  headroom_blocks = 1;
  maximum_visits = 2;
  block_samples = 1000;
  source_rate_hz = 1000000;
  maximum_bytes = 100000;
  maximum_age_ticks = 100000;
  drain_bytes_per_second = 1000000000;
  bytes_per_sample = 4;
  maximum_visit_ms = 10;
  preserve_partial = false;
}

abbrev empty : Queue
empty = VisitQueue.fresh config

-- a window of 1500 samples from 1000 on, and the two blocks that it meets
abbrev script : List Op
script =
    reserve 7 1500 0
    ∷ bind 7 1000
    ∷ feed 11 1 1000 1000
    ∷ feed 12 2 2000 1000
    ∷ close_window 7 2500
    ∷ []

abbrev window : View
window = record {
  id = 7;
  start = 1000;
  end = 2500;
  result = complete;
  slices =
      (3, record { token = 11; address = 1; offset = 0; bytes = 4000 })
      ∷ (2, record { token = 12; address = 2; offset = 0; bytes = 2000 })
      ∷ [];
}

create-empty : VisitQueue.create config ≡ some empty
unfolding VisitQueue.create VisitQueue.config_valid VisitQueue.blocks_valid VisitQueue.rates_valid
    VisitQueue.budgets_valid VisitQueue.scan_rate_valid
create-empty = refl

script-window : (Ops.take (run empty script)).1 ≡ some window
unfolding run step VisitQueue.fresh VisitQueue.over_visits VisitQueue.each_visit
    VisitQueue.terminate VisitQueue.discard VisitQueue.unref Feed.feed Feed.feed_visit
    Feed.scan_blocks Feed.add_slice Feed.lease Ops.reserve Ops.admit Ops.new_visit Ops.visit_blocks
    Ops.ticks_to_drain Ops.no_capacity Ops.too_old Ops.bind Ops.bind_last Ops.bind_visit
    Ops.split_last Ops.close_window Ops.close_in Ops.close_visit Ops.take Ops.take_first Ops.view_of
script-window = refl

run-IsAccounted_example :
    IsAccounted (run empty script)
    × IsWithinHeadroom (run empty script) (Ops.reserve (run empty script) 9 500 9000).2
run-IsAccounted_example = run-IsAccounted script config create-empty 9 500 9000

complete_view-covers_example :
    (1000 ≤ 2500)
    × (sum_slices window.slices ≡ (2500 - 1000) * (run empty script).config.bytes_per_sample)
complete_view-covers_example = complete_view-covers script config create-empty script-window refl
