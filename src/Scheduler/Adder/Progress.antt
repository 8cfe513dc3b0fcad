-- ===== src/Scheduler/Adder/Progress.antt =====
-- How far a pass carries a chunked prompt that it resumes.
use free_token_intel.Prelude.{
  ◌+◌, ◌-◌, ◌≤◌, ◌<◌, min, ◌≡◌, refl, true, some, arith, ltb, length, take, length-take,
}
use free_token_intel.Scheduler.Req.{Req, PendingReq, input_len}
use free_token_intel.Scheduler.Adder.{Adder, new_req, chunk_size, add_one_req, resume}

-- A request of the prompt: a chunk exactly when some of the prompt is left.
pub record IsPart (p : PendingReq) (c : Req) : Type 0 where
  pub within : c.device_len ≤ input_len p
  pub partial : c.chunked ≡ ltb c.device_len (input_len p)

-- One pass extends the chunk by its budget, or to the end of the prompt.
pub record Gains (a : Adder) (p : PendingReq) (c : Req) : Type 0 where
  pub after : Adder
  pub made : Req
  pub runs : resume a p c ≡ some (after, made)
  pub part : IsPart p made
  pub same_uid : made.uid ≡ p.uid
  pub gained : min (c.device_len + a.token_budget) (input_len p) ≡ made.device_len

pub resume-Gains :
    (a : Adder) (p : PendingReq) (c : Req)
    → 0 < a.token_budget
    → c.device_len < input_len p
    → Gains a p c
unfolding resume add_one_req chunk_size new_req
resume-Gains a p c some_budget left =
    let rest = input_len p - c.device_len in
    let n = min a.token_budget rest in
    let took : chunk_size a.token_budget rest true ≡ some n = ground arith in
    let upto : length (take (c.device_len + n) p.input_ids) ≡ c.device_len + n =
      omega (arith, length-take (c.device_len + n) p.input_ids) in
    record {
      after = record a { token_budget = a.token_budget - n };
      made = new_req p c.table_idx c.device_len n c.next_table_idx c.cache_handle (ltb n rest);
      runs = ground (arith, took);
      part = record { within = omega (arith, upto); partial = rw upto (ground arith) };
      same_uid = refl;
      gained = omega (arith, upto);
    }
