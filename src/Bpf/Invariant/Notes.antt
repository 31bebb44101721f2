-- ===== src/Bpf/Invariant/Notes.antt =====
-- The probes that note down peers and delays keep the invariant.
use cephtrace.Base.{not}
use cephtrace.Bpf.Tracer.{Hit, Config, Kernel, Tracer}
use cephtrace.Bpf.Fetch.{read_hprobe_varfield}
use cephtrace.Bpf.Queue.{find_op}
use cephtrace.Bpf.Notes.{
  add_peer, peer_reply, delay_string, delay_cstring, is_delayed, uprobe_generate_subop,
  uprobe_do_repop_reply, uprobe_mark_flag_point_string, uprobe_mark_flag_point,
}
use cephtrace.Bpf.Rules.{require_rule, if_rule}
use cephtrace.Bpf.Entry.Updates.{
  add_peer-IsTracked, peer_reply-IsTracked, delay_string-IsTracked, delay_cstring-IsTracked,
}
use cephtrace.Bpf.Invariant.{Inv, Inv-write, Inv-edit, with_key_rule}

module _ (k : Kernel) (g : Config) (c : Hit) where
  pub generate_subop-Inv :
      (s : Tracer k) → Inv k c.now s → Inv k c.now (uprobe_generate_subop k g c s)
  unfolding uprobe_generate_subop
  generate_subop-Inv s p = with_key_rule k c.now g c 100 s _ p λ key.
      require_rule (Inv k c.now) (find_op k s key) _ _ p λ v found.
        require_rule (Inv k c.now) (read_hprobe_varfield g c 102 4) _ _ p λ peer_id _.
          Inv-write k c.now s key v (add_peer c peer_id v) found
            (add_peer-IsTracked key g c c.now peer_id v (p.tracked key v found)) p

  pub do_repop_reply-Inv :
      (s : Tracer k) → Inv k c.now s → Inv k c.now (uprobe_do_repop_reply k g c s)
  unfolding uprobe_do_repop_reply
  do_repop_reply-Inv s p = with_key_rule k c.now g c 110 s _ p λ key.
      require_rule (Inv k c.now) (read_hprobe_varfield g c 112 4) _ _ p λ osdid _.
        Inv-edit k c.now s key (peer_reply c osdid)
          (λ v q. peer_reply-IsTracked key g c c.now osdid v q) p

  pub mark_flag_point_string-Inv :
      (s : Tracer k) → Inv k c.now s → Inv k c.now (uprobe_mark_flag_point_string k g c s)
  unfolding uprobe_mark_flag_point_string
  mark_flag_point_string-Inv s p =
      if_rule (Inv k c.now) (not (is_delayed c)) _ _ (λ _. p)
        λ _. with_key_rule k c.now g c 121 s _ p λ key.
          Inv-edit k c.now s key (delay_string g c)
            (λ v q. delay_string-IsTracked key g c c.now v q) p

  pub mark_flag_point-Inv :
      (s : Tracer k) → Inv k c.now s → Inv k c.now (uprobe_mark_flag_point k g c s)
  unfolding uprobe_mark_flag_point
  mark_flag_point-Inv s p =
      if_rule (Inv k c.now) (not (is_delayed c)) _ _ (λ _. p)
        λ _. with_key_rule k c.now g c 181 s _ p λ key.
          Inv-edit k c.now s key (delay_cstring c)
            (λ v q. delay_cstring-IsTracked key g c c.now v q) p
