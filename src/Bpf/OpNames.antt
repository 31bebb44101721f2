-- ===== src/Bpf/OpNames.antt =====
-- src/bpf_ceph_types.h: the names of OSD ops and of ObjectStore transaction ops, and the functions of
-- src/osdtrace.cc and src/radostrace.cc that look them up.
use cephtrace.Base.{ℕ, List, [], ◌∷◌, Option, none, some, ◌==◌, if◌then◌else◌, codes}

-- An opcode and its name.
pub record OpName : Type 0 where
  pub code : ℕ
  pub name : List ℕ

abbrev pub op_name : ℕ → List ℕ → OpName
op_name code name = record { code = code; name = name }

abbrev pub osd_ops : List OpName
osd_ops =
    op_name 0x1201 (codes "read")
    ∷ op_name 0x1202 (codes "stat")
    ∷ op_name 0x1203 (codes "mapext")
    ∷ op_name 0x121f (codes "checksum")
    ∷ op_name 0x1204 (codes "masktrunc")
    ∷ op_name 0x1205 (codes "sparse-read")
    ∷ op_name 0x1206 (codes "notify")
    ∷ op_name 0x1207 (codes "notify-ack")
    ∷ op_name 0x1208 (codes "assert-version")
    ∷ op_name 0x1209 (codes "list-watchers")
    ∷ op_name 0x120a (codes "list-snaps")
    ∷ op_name 0x120b (codes "sync_read")
    ∷ op_name 0x2201 (codes "write")
    ∷ op_name 0x2202 (codes "writefull")
    ∷ op_name 0x2203 (codes "truncate")
    ∷ op_name 0x2204 (codes "zero")
    ∷ op_name 0x2205 (codes "delete")
    ∷ op_name 0x2206 (codes "append")
    ∷ op_name 0x2207 (codes "startsync")
    ∷ op_name 0x2208 (codes "settrunc")
    ∷ op_name 0x2209 (codes "trimtrunc")
    ∷ op_name 0x320a (codes "tmapup")
    ∷ op_name 0x220b (codes "tmapput")
    ∷ op_name 0x120c (codes "tmapget")
    ∷ op_name 0x220d (codes "create")
    ∷ op_name 0x220e (codes "rollback")
    ∷ op_name 0x220f (codes "watch")
    ∷ op_name 0x1211 (codes "omap-get-keys")
    ∷ op_name 0x1212 (codes "omap-get-vals")
    ∷ op_name 0x1213 (codes "omap-get-header")
    ∷ op_name 0x1214 (codes "omap-get-vals-by-keys")
    ∷ op_name 0x2215 (codes "omap-set-vals")
    ∷ op_name 0x2216 (codes "omap-set-header")
    ∷ op_name 0x2217 (codes "omap-clear")
    ∷ op_name 0x2218 (codes "omap-rm-keys")
    ∷ op_name 0x222c (codes "omap-rm-key-range")
    ∷ op_name 0x1219 (codes "omap-cmp")
    ∷ op_name 0x221a (codes "copy-from")
    ∷ op_name 0x222d (codes "copy-from2")
    ∷ op_name 0x221c (codes "undirty")
    ∷ op_name 0x121d (codes "isdirty")
    ∷ op_name 0x121e (codes "copy-get")
    ∷ op_name 0x821f (codes "cache-flush")
    ∷ op_name 0x8220 (codes "cache-evict")
    ∷ op_name 0x8221 (codes "cache-try-flush")
    ∷ op_name 0x3222 (codes "tmap2omap")
    ∷ op_name 0x2223 (codes "set-alloc-hint")
    ∷ op_name 0x2224 (codes "cache-pin")
    ∷ op_name 0x2225 (codes "cache-unpin")
    ∷ op_name 0x2226 (codes "write-same")
    ∷ op_name 0x1220 (codes "cmpext")
    ∷ op_name 0x2227 (codes "set-redirect")
    ∷ op_name 0x8228 (codes "set-chunk")
    ∷ op_name 0x2229 (codes "tier-promote")
    ∷ op_name 0x222a (codes "unset-manifest")
    ∷ op_name 0x822b (codes "tier-flush")
    ∷ op_name 0x822c (codes "tier-evict")
    ∷ op_name 0x1301 (codes "getxattr")
    ∷ op_name 0x1302 (codes "getxattrs")
    ∷ op_name 0x1303 (codes "cmpxattr")
    ∷ op_name 0x2301 (codes "setxattr")
    ∷ op_name 0x2302 (codes "setxattrs")
    ∷ op_name 0x2303 (codes "resetxattrs")
    ∷ op_name 0x2304 (codes "rmxattr")
    ∷ op_name 0x4001 (codes "pull")
    ∷ op_name 0x4002 (codes "push")
    ∷ op_name 0x4003 (codes "balance-reads")
    ∷ op_name 0x4004 (codes "unbalance-reads")
    ∷ op_name 0x4005 (codes "scrub")
    ∷ op_name 0x4006 (codes "scrub-reserve")
    ∷ op_name 0x4007 (codes "scrub-unreserve")
    ∷ op_name 0x4009 (codes "scrub-map")
    ∷ op_name 0x1401 (codes "call")
    ∷ op_name 0x1501 (codes "pgls")
    ∷ op_name 0x1502 (codes "pgls-filter")
    ∷ op_name 0x1503 (codes "pg-hitset-ls")
    ∷ op_name 0x1504 (codes "pg-hitset-get")
    ∷ op_name 0x1505 (codes "pgnls")
    ∷ op_name 0x1506 (codes "pgnls-filter")
    ∷ op_name 0x1507 (codes "scrubls")
    ∷ []

abbrev pub objectstore_txn_ops : List OpName
objectstore_txn_ops =
    op_name 0 (codes "nop")
    ∷ op_name 7 (codes "create")
    ∷ op_name 8 (codes "coll_move")
    ∷ op_name 9 (codes "touch")
    ∷ op_name 10 (codes "write")
    ∷ op_name 11 (codes "zero")
    ∷ op_name 12 (codes "truncate")
    ∷ op_name 13 (codes "remove")
    ∷ op_name 14 (codes "setattr")
    ∷ op_name 15 (codes "setattrs")
    ∷ op_name 16 (codes "rmattr")
    ∷ op_name 17 (codes "clone")
    ∷ op_name 18 (codes "clonerange")
    ∷ op_name 19 (codes "trimcache")
    ∷ op_name 20 (codes "mkcoll")
    ∷ op_name 21 (codes "rmcoll")
    ∷ op_name 22 (codes "coll_add")
    ∷ op_name 23 (codes "coll_remove")
    ∷ op_name 24 (codes "coll_setattr")
    ∷ op_name 25 (codes "coll_rmattr")
    ∷ op_name 26 (codes "coll_setattrs")
    ∷ op_name 28 (codes "rmattrs")
    ∷ op_name 29 (codes "coll_rename")
    ∷ op_name 30 (codes "clonerange2")
    ∷ op_name 31 (codes "omap_clear")
    ∷ op_name 32 (codes "omap_setkeys")
    ∷ op_name 33 (codes "omap_rmkeys")
    ∷ op_name 34 (codes "omap_setheader")
    ∷ op_name 35 (codes "split_collection")
    ∷ op_name 36 (codes "split_collection2")
    ∷ op_name 37 (codes "omap_rmkeyrange")
    ∷ op_name 38 (codes "coll_move_rename")
    ∷ op_name 39 (codes "setallochint")
    ∷ op_name 40 (codes "coll_hint")
    ∷ op_name 41 (codes "try_rename")
    ∷ op_name 42 (codes "coll_set_bits")
    ∷ op_name 43 (codes "merge_collection")
    ∷ op_name 44 (codes "touch_temp")
    ∷ []

-- The case of the switch that has the opcode; `none` is the null pointer.
unfoldable pub name_of : ℕ → List OpName → Option (List ℕ)
name_of opcode [] = none
name_of opcode (e ∷ es) =
    let rest = name_of opcode es in if opcode == e.code then some e.name else rest

abbrev pub ceph_osd_op_str : ℕ → Option (List ℕ)
ceph_osd_op_str opcode = name_of opcode osd_ops

abbrev pub objectstore_txn_op_str : ℕ → Option (List ℕ)
objectstore_txn_op_str opcode = name_of opcode objectstore_txn_ops
