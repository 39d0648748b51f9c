-- ===== src/Mpmc/Instances.antt =====
-- The two queues as protocols: alf_mp_enqueue and alf_mc_dequeue of
-- kernel/include/linux/alf_queue.h, __ring_queue_mp_do_enqueue and __ring_queue_mc_do_dequeue of
-- kernel/include/linux/ring_queue.h.
use prototype_kernel.Base.{ℕ, ◌-◌, ◌^◌, ◌≤◌, ◌<◌, ◌≡◌, ◌≢◌, arith, min}
use prototype_kernel.Mpmc.Protocol.{Protocol}
use prototype_kernel.RingQueue.State.{Ret, enobufs, enoent, Behavior, fixed, variable}
use prototype_kernel.RingQueue.Ops.{move, give_up, limit}

-- All or nothing goes in, and what is there comes out.
abbrev pub alf_protocol : (log : ℕ) → log ≤ 16 → (ℕ → Type 0) → Protocol
alf_protocol log small Asks = record {
  log = log;
  capacity = 2 ^ log;
  Asks = Asks;
  GrantIn = λ n space moved. (n ≤ space) × (moved ≡ n);
  RefuseIn = λ n space. space < n;
  GrantOut = λ n elems moved. (elems ≢ 0) × (moved ≡ min elems n);
  RefuseOut = λ n elems. elems ≡ 0;
  small = omega arith;
  capacity_le = omega arith;
  grant_in_le = λ n space moved g. (omega (arith, g.1), omega (arith, g.0, g.1));
  grant_in_pos = λ n space moved g pos. omega (arith, g.1);
  grant_out_le = λ n elems moved g. (omega (arith, g.1), omega (arith, g.1));
  grant_out_pos = λ n elems moved g pos. omega (arith, g.0, g.1);
}

-- What the code moves after its test, it was asked for, and is there.
pub limit_le :
    (error : Ret) (behavior : Behavior) (n free moved : ℕ)
    → limit error behavior n free ≡ move moved
    → (moved ≤ n) × (moved ≤ free)
unfolding limit
limit_le error fixed n free moved e = (ground arith, ground arith)
limit_le error variable n free moved e = (ground arith, ground arith)

pub limit_pos :
    (error : Ret) (behavior : Behavior) (n free moved : ℕ)
    → limit error behavior n free ≡ move moved
    → 0 < n
    → 0 < moved
unfolding limit
limit_pos error fixed n free moved e pos = ground arith
limit_pos error variable n free moved e pos = ground arith

-- One slot stays free.
abbrev pub ring_queue_protocol :
    (log : ℕ) → log ≤ 28 → Behavior → Behavior → (ℕ → Type 0) → Protocol
ring_queue_protocol log small enqueue dequeue Asks = record {
  log = log;
  capacity = 2 ^ log - 1;
  Asks = Asks;
  GrantIn = λ n free moved. limit enobufs enqueue n free ≡ move moved;
  RefuseIn = λ n free. (ret : Ret) × (limit enobufs enqueue n free ≡ give_up ret);
  GrantOut = λ n entries moved. limit enoent dequeue n entries ≡ move moved;
  RefuseOut = λ n entries. (ret : Ret) × (limit enoent dequeue n entries ≡ give_up ret);
  small = small;
  capacity_le = omega arith;
  grant_in_le = limit_le enobufs enqueue;
  grant_in_pos = limit_pos enobufs enqueue;
  grant_out_le = limit_le enoent dequeue;
  grant_out_pos = limit_pos enoent dequeue;
}
