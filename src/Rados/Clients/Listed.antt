-- ===== src/Rados/Clients/Listed.antt =====
-- The clients that are listed are those of /proc, by pid.
use cephtrace.Base.{
  ◌≡◌, inl, inr, refl, arith, false, List, [], ◌∷◌, Option, none, some, ltb, All, Any, All-imp,
  Bool-cases,
}
use cephtrace.Bpf.Rules.{require_some}
use cephtrace.Select.Embedded.{EmbeddedTables}
use cephtrace.Version.Text.{ProcEntry}
use cephtrace.Rados.Clients.{
  CephClient, ClientHost, client_of_entry, insert_client, add_client, sorted_clients,
  discover_ceph_clients,
}

module _ (tables : EmbeddedTables) (host : ClientHost) where
  -- No client has a smaller pid than the one before it.
  abbrev pub Follows : CephClient → List CephClient → Type 0
  Follows c [] = Unit {0}
  Follows c (d ∷ ds) = ltb d.pid c.pid ≡ false

  abbrev pub AreSorted : List CephClient → Type 0
  AreSorted [] = Unit {0}
  AreSorted (c ∷ cs) = Follows c cs × AreSorted cs

  Follows-insert :
      (d c : CephClient) (cs : List CephClient)
      → ltb c.pid d.pid ≡ false
      → Follows d cs
      → Follows d (insert_client tables host c cs)
  unfolding insert_client
  Follows-insert d c [] h b = h
  Follows-insert d c (x ∷ xs) h b = ground arith

  insert-AreSorted :
      (c : CephClient) (cs : List CephClient)
      → AreSorted cs
      → AreSorted (insert_client tables host c cs)
  unfolding insert_client
  insert-AreSorted c [] h = (tt, tt)
  insert-AreSorted c (d ∷ ds) (b, h) = elim (Bool-cases (ltb c.pid d.pid)) [
    | inl e ↦ ground arith
    | inr e ↦ ground (arith, Follows-insert d c ds e b, insert-AreSorted c ds h)
  ]

  insert-All :
      (P : CephClient → Type 0) (c : CephClient) (cs : List CephClient)
      → P c
      → All P cs
      → All P (insert_client tables host c cs)
  unfolding insert_client
  insert-All P c [] h hs = (h, tt)
  insert-All P c (d ∷ ds) h hs = ground (arith, insert-All P c ds h)

  insert-here :
      (P : CephClient → Type 0) (c : CephClient) (cs : List CephClient)
      → P c
      → Any P (insert_client tables host c cs)
  unfolding insert_client
  insert-here P c [] h = inl h
  insert-here P c (d ∷ ds) h = ground (arith, insert-here P c ds h)

  insert-there :
      (P : CephClient → Type 0) (c : CephClient) (cs : List CephClient)
      → Any P cs
      → Any P (insert_client tables host c cs)
  unfolding insert_client
  insert-there P c [] h = absurd h
  insert-there P c (d ∷ ds) h = ground (arith, insert-there P c ds)

  -- The client is that of one of the entries; and the client of the entry, if any, is listed.
  abbrev pub IsOf : List ProcEntry → CephClient → Type 0
  IsOf entries c = Any (λ e. client_of_entry tables host e ≡ some c) entries

  abbrev pub Lists : List CephClient → ProcEntry → Type 0
  Lists cs e = (c : CephClient) → client_of_entry tables host e ≡ some c → Any (λ d. d ≡ c) cs

  pub record AreClients (entries : List ProcEntry) (cs : List CephClient) : Type 0 where
    pub sorted : AreSorted cs
    pub sound : All (IsOf entries) cs
    pub complete : All (Lists cs) entries

  add_client-AreClients :
      (entry : ProcEntry) (entries : List ProcEntry) (cs : List CephClient) (o : Option CephClient)
      → client_of_entry tables host entry ≡ o
      → AreClients entries cs
      → AreClients (entry ∷ entries) (add_client tables host o cs)
  add_client-AreClients entry entries cs none e d = record {
    sorted = d.sorted;
    sound = All-imp _ _ (λ p h. inr h) cs d.sound;
    complete = ((λ p h. cc), d.complete);
  }
  add_client-AreClients entry entries cs (some c) e d = record {
    sorted = insert-AreSorted c cs d.sorted;
    sound =
        insert-All (IsOf (entry ∷ entries)) c cs (inl e) (All-imp _ _ (λ p h. inr h) cs d.sound);
    complete = (
      (λ q h. insert-here (λ x. x ≡ q) c cs (cc)),
      All-imp _ _ (λ x f q h. insert-there (λ x. x ≡ q) c cs (f q h)) entries d.complete,
    );
  }

  sorted_clients-AreClients :
      (entries : List ProcEntry) → AreClients entries (sorted_clients tables host entries)
  unfolding sorted_clients
  sorted_clients-AreClients [] = record { sorted = tt; sound = tt; complete = tt }
  sorted_clients-AreClients (entry ∷ entries) =
      add_client-AreClients entry entries _ (client_of_entry tables host entry) refl
        (sorted_clients-AreClients entries)

  -- If /proc can be read, the clients that are listed are those of its entries, all of them and no
  -- others, in the order of their pids.
  pub discover_ceph_clients-AreClients :
      (entries : List ProcEntry)
      → host.proc_dir ≡ some entries
      → AreClients entries (discover_ceph_clients tables host)
  unfolding discover_ceph_clients
  discover_ceph_clients-AreClients entries e =
      require_some (AreClients entries) host.proc_dir entries [] (sorted_clients tables host) e
        (sorted_clients-AreClients entries)
