-- ===== src/Bpf/Entry/Updates.antt =====
-- A probe that stamps, counts or names part of an entry keeps it tracked.
use cephtrace.Base.{ℕ, ◌≡◌, arith, true}
use cephtrace.Bpf.Types.{OpKey, OpValue, zero_op_v}
use cephtrace.Bpf.Tracer.{Hit, Config}
use cephtrace.Bpf.Queue.{fresh_entry, is_osd_msg}
use cephtrace.Bpf.Store.{state_stamps}
use cephtrace.Bpf.Notes.{add_peer, peer_reply, delay_string, delay_cstring}
use cephtrace.Bpf.Entry.{Staged-now, Staged-unset, IsTracked}

module _ (key : OpKey) (g : Config) (c : Hit) where
  pub fresh_entry-IsTracked :
      (op_type stamp : ℕ)
      → is_osd_msg op_type ≡ true
      → IsTracked stamp key (fresh_entry key op_type stamp zero_op_v)
  unfolding fresh_entry is_osd_msg
  fresh_entry-IsTracked op_type stamp h = ground (arith, Staged-unset stamp stamp)

  pub state_stamps-IsTracked :
      (aio_num state : ℕ) (v : OpValue)
      → IsTracked c.now key v
      → IsTracked c.now key (state_stamps c aio_num state v)
  unfolding state_stamps
  state_stamps-IsTracked aio_num state v p = ground (arith, Staged-now c.now v.enqueue_stamp)

  pub add_peer-IsTracked :
      (t peer_id : ℕ) (v : OpValue) → IsTracked t key v → IsTracked t key (add_peer c peer_id v)
  unfolding add_peer
  add_peer-IsTracked t peer_id v p = ground arith

  pub peer_reply-IsTracked :
      (t osdid : ℕ) (v : OpValue) → IsTracked t key v → IsTracked t key (peer_reply c osdid v)
  unfolding peer_reply
  peer_reply-IsTracked t osdid v p = ground arith

  pub delay_string-IsTracked :
      (t : ℕ) (v : OpValue) → IsTracked t key v → IsTracked t key (delay_string g c v)
  unfolding delay_string
  delay_string-IsTracked t v p = ground arith

  pub delay_cstring-IsTracked :
      (t : ℕ) (v : OpValue) → IsTracked t key v → IsTracked t key (delay_cstring c v)
  unfolding delay_cstring
  delay_cstring-IsTracked t v p = ground arith
