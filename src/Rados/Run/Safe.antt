-- ===== src/Rados/Run/Safe.antt =====
-- The invariant of radostrace's map and ring buffer.
use cephtrace.Base.{
  ℕ, zero, suc, ◌+◌, ◌≤◌, ◌≡◌, refl, subst, arith, List, [], ◌∷◌, length, set, add64, minus_one,
  ◌==◌, get_or, ◌∙◌, All, All-imp,
}
use cephtrace.Bpf.Maps.{
  Entries, updated_value, Others-update, Entries-fill, Entries-drop, Others-write, Entries-missing,
}
use cephtrace.Bpf.Tracer.{Hit}
use cephtrace.Bpf.Types.{zero_cls_op}
use cephtrace.Bpf.Queue.{read_uint}
use cephtrace.Bpf.Fetch.{fetch_register}
use cephtrace.Bpf.Rules.{if_rule, require_cases}
use cephtrace.Rados.Types.{
  ClientOpKey, ClientOpValue, zero_val, ClientConfig, ClientOps, Client, max_acting, max_client_ops,
}
use cephtrace.Rados.Probes.{
  client_key, client_call, acting_loop, capture_client_op, client_ops_loop, client_fields,
  fill_client_op, uprobe_send_op, uprobe_finish_op,
}
use cephtrace.Rados.Run.{
  ClientProbe, send_op, finish_op, client_initial, client_step, client_run, ClientTimed,
  client_end_time,
}

-- The arrays have their sizes.
pub record IsSized (v : ClientOpValue) : Type 0 where
  pub sized_acting : length v.acting ≡ max_acting
  pub sized_ops : length v.ops ≡ max_client_ops
  pub sized_cls_ops : length v.cls_ops ≡ max_client_ops

-- An op that was sent by t and is not finished.
pub record IsSent (t : ℕ) (key : ClientOpKey) (v : ClientOpValue) : Type 0 where
  pub same_cid : v.cid ≡ key.cid
  pub same_tid : v.tid ≡ key.tid
  pub sent : v.sent_stamp ≤ t
  pub unfinished : v.finish_stamp ≡ 0
  pub sized : IsSized v

-- An op that was finished after it was sent, by t.
pub record IsFinished (t : ℕ) (v : ClientOpValue) : Type 0 where
  pub ordered : v.sent_stamp ≤ v.finish_stamp
  pub finished : v.finish_stamp ≤ t
  pub sized : IsSized v

pub record ClientInv (k : ClientOps) (t : ℕ) (s : Client k) : Type 0 where
  pub tracked : Entries k (IsSent t) s.ops
  pub emitted : All (IsFinished t) s.rb

length-set : {A : Type 0} (xs : List A) (i : ℕ) (a : A) → length (set xs i a) ≡ length xs
length-set [] i a = refl
length-set (x ∷ xs) zero a = refl
length-set (x ∷ xs) (suc i) a = ground (arith, length-set xs i a)

acting_loop-length :
    (c : Hit) (finish rounds i start : ℕ) (acting : List ℕ)
    → length (acting_loop c finish rounds i start acting) ≡ length acting
unfolding acting_loop
acting_loop-length c finish zero i start acting = refl
acting_loop-length c finish (suc rounds) i start acting =
    let osd = read_uint c start 4 in
    ground (
      arith,
      length-set acting i minus_one,
      length-set (set acting i minus_one) i osd,
      acting_loop-length c finish rounds (i + 1) (add64 start 4)
          (set (set acting i minus_one) i osd),
    )

-- What the capture of the ops leaves as it was.
abbrev Keeps : ClientOpValue → ClientOpValue → Type 0
Keeps v w =
    (w.cid ≡ v.cid)
    × (w.tid ≡ v.tid)
    × (w.finish_stamp ≡ v.finish_stamp)
    × (length w.acting ≡ length v.acting)
    × (length w.ops ≡ length v.ops)
    × (length w.cls_ops ≡ length v.cls_ops)

module _ (g : ClientConfig) (c : Hit) where
  capture_client_op-Keeps :
      (i op_addr : ℕ) (v : ClientOpValue) → Keeps v (capture_client_op g c i op_addr v)
  unfolding capture_client_op
  capture_client_op-Keeps i op_addr v = ground (
    arith,
    length-set v.ops i (read_uint c op_addr 2),
    length-set v.cls_ops i (client_call g c op_addr (get_or v.cls_ops i zero_cls_op)),
  )

  client_ops_loop-Keeps :
      (rounds i op_addr : ℕ) (v : ClientOpValue) → Keeps v (client_ops_loop g c rounds i op_addr v)
  unfolding client_ops_loop
  client_ops_loop-Keeps zero i op_addr v = ground arith
  client_ops_loop-Keeps (suc rounds) i op_addr v = ground (
    arith,
    capture_client_op-Keeps i op_addr v,
    client_ops_loop-Keeps rounds (i + 1) (add64 op_addr g.ceph_osd_op_size)
        (capture_client_op g c i op_addr v),
  )

  -- The fields before the ops: of a zeroed value, the arrays keep their sizes.
  client_fields-zero :
      (key : ClientOpKey) (op : ℕ)
      → let v = client_fields g c key op zero_val in
        (v.cid ≡ key.cid) × (v.tid ≡ key.tid) × (v.finish_stamp ≡ 0) × IsSized v
  unfolding client_fields
  client_fields-zero key op = (
    refl,
    refl,
    refl,
    record {
      sized_acting = acting_loop-length c _ max_acting 0 _ zero_val.acting;
      sized_ops = refl;
      sized_cls_ops = refl;
    },
  )

  fill_client_op-IsSent :
      (key : ClientOpKey) (op : ℕ) → IsSent c.now key (fill_client_op g c key op zero_val)
  unfolding fill_client_op
  fill_client_op-IsSent key op =
      let fields = client_fields g c key op zero_val in
      let known = client_fields-zero key op in
      let keeps =
        client_ops_loop-Keeps max_client_ops 0 (read_uint c (add64 op g.off_ops_start) 8) fields in
      record {
        same_cid = keeps.0 ∙ known.0;
        same_tid = keeps.1 ∙ known.1;
        sent = omega arith;
        unfinished = keeps.2 ∙ known.2;
        sized = record {
          sized_acting = keeps.3 ∙ known.3.sized_acting;
          sized_ops = keeps.4 ∙ known.3.sized_ops;
          sized_cls_ops = keeps.5 ∙ known.3.sized_cls_ops;
        };
      }

IsSent-mono :
    (t u : ℕ) (key : ClientOpKey) (v : ClientOpValue) → t ≤ u → IsSent t key v → IsSent u key v
IsSent-mono t u key v h p = record {
  same_cid = p.same_cid;
  same_tid = p.same_tid;
  sent = omega (arith, p.sent);
  unfinished = p.unfinished;
  sized = p.sized;
}

IsFinished-mono : (t u : ℕ) (v : ClientOpValue) → t ≤ u → IsFinished t v → IsFinished u v
IsFinished-mono t u v h p = record {
  ordered = p.ordered;
  finished = omega (arith, p.finished);
  sized = p.sized;
}

IsFinished-now :
    (t : ℕ) (key : ClientOpKey) (v : ClientOpValue)
    → IsSent t key v
    → IsFinished t (record v { finish_stamp = t })
IsFinished-now t key v p = record {
  ordered = p.sent;
  finished = omega arith;
  sized = record {
    sized_acting = p.sized.sized_acting;
    sized_ops = p.sized.sized_ops;
    sized_cls_ops = p.sized.sized_cls_ops;
  };
}

module _ (k : ClientOps) where
  ClientInv-mono : (t u : ℕ) (s : Client k) → t ≤ u → ClientInv k t s → ClientInv k u s
  ClientInv-mono t u s h p = record {
    tracked = λ key v e. IsSent-mono t u key v h (p.tracked key v e);
    emitted = All-imp _ _ (λ v f. IsFinished-mono t u v h f) s.rb p.emitted;
  }

  module _ (g : ClientConfig) (c : Hit) (s : Client k) (p : ClientInv k c.now s) where
    send_op-ClientInv : ClientInv k c.now (uprobe_send_op k g c s)
    unfolding uprobe_send_op
    send_op-ClientInv =
        let P = ClientInv k c.now in
        let op = fetch_register c.regs g.send_op_reg in
        let key = client_key g c op g.send_this_reg in
        let m = k.update s.ops key zero_val in
        let others = Others-update k s.ops key zero_val p.tracked in
        if_rule P (op == 0) _ _ (λ _. p)
          λ _.
            require_cases P (k.lookup m key) _ _
              (λ gone. record {
                tracked = Entries-missing k m key gone others;
                emitted = p.emitted;
              })
              λ val found.
                let zero : zero_val ≡ val =
                  updated_value k s.ops key zero_val val (k.lookup-update_self s.ops key zero_val)
                    found in
                record {
                  tracked =
                      Entries-fill k m key (fill_client_op g c key op val) val found
                        (subst (λ z. IsSent c.now key (fill_client_op g c key op z)) zero
                          (fill_client_op-IsSent g c key op))
                        others;
                  emitted = p.emitted;
                }

    finish_op-ClientInv : ClientInv k c.now (uprobe_finish_op k g c s)
    unfolding uprobe_finish_op
    finish_op-ClientInv =
        let P = ClientInv k c.now in
        let op = fetch_register c.regs g.fin_op_reg in
        let key = client_key g c op g.fin_this_reg in
        if_rule P (op == 0) _ _ (λ _. p)
          λ _.
            require_cases P (k.lookup s.ops key) _ _ (λ _. p)
              λ opv found.
                let e : ClientOpValue = record opv { finish_stamp = c.now } in
                let done = IsFinished-now c.now key opv (p.tracked key opv found) in
                record {
                  tracked =
                      Entries-drop k (k.write s.ops key e) key
                        (Others-write k s.ops key e (λ j u h n. p.tracked j u h));
                  emitted =
                      if_rule (All (IsFinished c.now)) c.has_room _ _ (λ _. (done, p.emitted))
                        (λ _. p.emitted);
                }

  client_step-ClientInv :
      (g : ClientConfig) (p : ClientProbe) (c : Hit) (s : Client k)
      → ClientInv k c.now s
      → ClientInv k c.now (client_step k g p c s)
  client_step-ClientInv g send_op c s v = send_op-ClientInv g c s v
  client_step-ClientInv g finish_op c s v = finish_op-ClientInv g c s v

  client_run_from-ClientInv :
      (g : ClientConfig) (hits : List (ClientProbe × Hit)) (t : ℕ) (s : Client k)
      → ClientTimed t hits
      → ClientInv k t s
      → ClientInv k (client_end_time t hits) (client_run k g hits s)
  unfolding client_run
  client_run_from-ClientInv g [] t s timed v = v
  client_run_from-ClientInv g ((p, c) ∷ hits) t s (h, timed) v =
      client_run_from-ClientInv g hits c.now _ timed
        (client_step-ClientInv g p c s (ClientInv-mono t c.now s h v))

  -- Whatever hits the clients make in the order of the clock: every entry of `ops` carries the
  -- client and the tid of its key, was sent no later than the last reading of the clock and has no
  -- finish stamp; every event submitted was finished no earlier than it was sent, and no later than
  -- that reading; and the arrays of both have their sizes.
  pub client_run-ClientInv :
      (g : ClientConfig) (hits : List (ClientProbe × Hit)) (t : ℕ)
      → ClientTimed t hits
      → ClientInv k (client_end_time t hits) (client_run k g hits (client_initial k))
  client_run-ClientInv g hits t timed =
      client_run_from-ClientInv g hits t _ timed
        (record { tracked = λ key v e. cc (k.lookup-empty key); emitted = tt })
