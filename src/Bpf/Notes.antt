-- ===== src/Bpf/Notes.antt =====
-- src/osdtrace.bpf.c: the probes that note down an op's peers and its delays.
use cephtrace.Base.{
  ℕ, ◌+◌, ◌%◌, Bool, not, ◌||◌, List, [], leb, ◌==◌, if◌then◌else◌, set, get_or, minus_one, bit_and,
}
use cephtrace.Bpf.Types.{OpValue, DelayInfo, flag_delayed}
use cephtrace.Bpf.Tracer.{Hit, Config, Kernel, Tracer}
use cephtrace.Bpf.Fetch.{read_hprobe_varfield}
use cephtrace.Bpf.Queue.{require, overlay, find_op, write_op, with_key}

-- The first peer goes to slot 1, every later one to slot 2.
unfoldable pub add_peer : Hit → ℕ → OpValue → OpValue
add_peer c peer_id v = record v {
  pi =
      if v.pi.peer1 == minus_one
      then record (v.pi) { peer1 = peer_id; sent_stamp = c.now }
      else record (v.pi) { peer2 = peer_id; sent_stamp = c.now };
}

unfoldable pub peer_reply : Hit → ℕ → OpValue → OpValue
peer_reply c osdid v = record v {
  pi =
      if osdid == v.pi.peer1
      then record (v.pi) { recv_stamp1 = c.now }
      else if osdid == v.pi.peer2
      then record (v.pi) { recv_stamp2 = c.now }
      else v.pi;
}

-- The text goes to the next free row of the table, and the row is counted.
abbrev pub delay_row : List ℕ → DelayInfo → DelayInfo
delay_row text di = record di {
  delays = set di.delays di.cnt (overlay text (get_or di.delays di.cnt []));
  cnt = di.cnt + 1;
}

-- `flag` is the low byte of the argument.
abbrev pub is_delayed : Hit → Bool
is_delayed c = not (bit_and (c.parm2 % 256) flag_delayed == 0)

unfoldable pub delay_string : Config → Hit → OpValue → OpValue
delay_string g c v = require (read_hprobe_varfield g c 123 4) v λ len.
    require (read_hprobe_varfield g c 124 8) v λ str_addr.
      if leb 5 v.di.cnt || leb 32 len
      then v
      else record v { di = delay_row (c.read_user str_addr len) v.di }

unfoldable pub delay_cstring : Hit → OpValue → OpValue
delay_cstring c v =
    if leb 5 v.di.cnt then v else record v { di = delay_row (c.read_user_str c.parm3 32) v.di }

module _ (k : Kernel) where
  unfoldable pub uprobe_generate_subop : Config → Hit → Tracer k → Tracer k
  unfolding add_peer
  uprobe_generate_subop g c s = with_key k g c 100 s λ key. require (find_op k s key) s λ v.
      require (read_hprobe_varfield g c 102 4) s λ peer_id. write_op k s key (add_peer c peer_id v)

  unfoldable pub uprobe_do_repop_reply : Config → Hit → Tracer k → Tracer k
  unfolding peer_reply
  uprobe_do_repop_reply g c s = with_key k g c 110 s λ key.
      require (read_hprobe_varfield g c 112 4) s
        λ osdid. require (find_op k s key) s λ v. write_op k s key (peer_reply c osdid v)

  unfoldable pub uprobe_mark_flag_point_string : Config → Hit → Tracer k → Tracer k
  unfolding delay_string
  uprobe_mark_flag_point_string g c s =
      if not (is_delayed c)
      then s
      else with_key k g c 121 s
          λ key. require (find_op k s key) s λ v. write_op k s key (delay_string g c v)

  unfoldable pub uprobe_mark_flag_point : Config → Hit → Tracer k → Tracer k
  unfolding delay_cstring
  uprobe_mark_flag_point g c s =
      if not (is_delayed c)
      then s
      else with_key k g c 181 s
          λ key. require (find_op k s key) s λ v. write_op k s key (delay_cstring c v)
