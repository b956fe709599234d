-- ===== src/Status/Service/MinServer.antt =====
-- Which server `getChatServer` picks, and what it does to the map.
use quick_chat.Prelude.{
  true, false, ◌⊎◌, append-nil, append_assoc, [], ◌∷◌, ◌++◌, ◌≡◌, ◌≢◌, refl, sym, ap, ◌∙◌, subst,
  inl, inr, arith, Bytes, bytes_eq, bytes_eq_iff, ℤ, ltb_ℤ, All, All-append, if◌then◌else◌, Outcome,
  done, and_then, and_then-done, Bool-cases,
}
use quick_chat.Common.Redis.Server.{RedisServer}
use quick_chat.Status.Service.{
  ChatServer, Servers, Service, load_count, scan_servers, min_of, pick_server,
}

abbrev pub Unnamed : Bytes → Servers → Type 0
Unnamed name = All (λ e. e.1.name ≢ name)

-- No two entries have one name.
abbrev pub Distinct : Servers → Type 0
Distinct [] = Unit {0}
Distinct ((k, server) ∷ rest) = Unnamed server.name rest × Distinct rest

-- No entry has a lower count.
abbrev pub NoneBelow : ℤ → Servers → Type 0
NoneBelow count = All (λ e. ltb_ℤ e.1.con_count count ≡ false)

ltb_trans : (a b c : ℤ) → ltb_ℤ b c ≡ true → ltb_ℤ a c ≡ false → ltb_ℤ a b ≡ false
ltb_trans a b c h k = ground arith

NoneBelow-lower : (b c : ℤ) (es : Servers) → ltb_ℤ b c ≡ true → NoneBelow c es → NoneBelow b es
NoneBelow-lower b c [] h n = tt
NoneBelow-lower b c ((k, e) ∷ es) h (n, ns) =
    (ltb_trans e.con_count b c h n, NoneBelow-lower b c es h ns)

ltb_irrefl : (a : ℤ) → ltb_ℤ a a ≡ false
ltb_irrefl a = ground arith

-- The same entries in the same order, but for the counts.
abbrev pub Recounted : Servers → Servers → Type 0
Recounted [] [] = Unit {0}
Recounted ((k, e) ∷ es) ((k', e') ∷ es') =
    (k' ≡ k) × (e' ≡ record e { con_count = e'.con_count }) × Recounted es es'
Recounted [] ((k', e') ∷ es') = ⊥
Recounted ((k, e) ∷ es) [] = ⊥

-- The server of an entry.
abbrev pub InServers : ChatServer → Servers → Type 0
InServers m [] = ⊥
InServers m ((k, e) ∷ es) = (m ≡ e) ⊎ InServers m es

module _ (srv : RedisServer) where
  -- `seen`: the entries that the loop has been through, `todo`: those that it has not, and
  -- `min_server`: the lowest so far.
  abbrev Picks : Bytes → ChatServer → Servers → Servers → ChatServer → Service srv → Type 0
  Picks key min_server seen todo m s =
      (more : Servers) × (s.servers ≡ (key, m) ∷ (seen ++ more))
      × NoneBelow m.con_count (seen ++ more)
      × Recounted todo more
      × ((m ≡ min_server) ⊎ InServers m more)

  abbrev counted : ChatServer → ℤ → ChatServer
  counted server count = record server { con_count = count }

  abbrev lower : ChatServer → ChatServer → ℤ → ChatServer
  lower min_server server count =
      if ltb_ℤ count min_server.con_count then counted server count else min_server

  lower_lem :
      (min_server server : ChatServer) (count : ℤ) (k : Bytes) (seen rest : Servers)
      → Unnamed min_server.name rest
      → Unnamed server.name rest
      → NoneBelow min_server.con_count seen
      → Unnamed (lower min_server server count).name rest
        × NoneBelow
            (lower min_server server count).con_count
            (seen ++ (k, counted server count) ∷ [])
  lower_lem min_server server count k seen rest u v n =
      elim (Bool-cases (ltb_ℤ count min_server.con_count)) [
        | inl e ↦ rw e (
          v,
          All-append _ seen _ (NoneBelow-lower count min_server.con_count seen e n)
              (ltb_irrefl count, tt),
        )
        | inr e ↦ rw e (u, All-append _ seen _ n (e, tt))
      ]

  lower_origin :
      (min_server server m : ChatServer) (count : ℤ) (more : Servers)
      → (m ≡ lower min_server server count) ⊎ InServers m more
      → (m ≡ min_server) ⊎ ((m ≡ counted server count) ⊎ InServers m more)
  lower_origin min_server server m count more (inr i) = inr (inr i)
  lower_origin min_server server m count more (inl e) =
      elim (Bool-cases (ltb_ℤ count min_server.con_count)) [
        | inl b ↦ inr (inl (ground arith))
        | inr b ↦ inl (ground arith)
      ]

  -- The rest of the loop, once the count of a server is read.
  abbrev after_count :
      Bytes
      → ChatServer
      → Servers
      → Bytes
      → ChatServer
      → Servers
      → ℤ
      → Service srv
      → Outcome ChatServer × Service srv
  after_count key min_server seen k server rest count s =
      scan_servers srv key (lower min_server server count) (seen ++ (k, counted server count) ∷ [])
        rest
        (record s {
          servers =
              (key, lower min_server server count) ∷ (seen ++ (k, counted server count) ∷ rest);
        })

  scan_step :
      (key : Bytes) (min_server : ChatServer) (seen : Servers) (k : Bytes) (server : ChatServer)
      (rest : Servers) (s : Service srv)
      → server.name ≢ min_server.name
      → scan_servers srv key min_server seen ((k, server) ∷ rest) s
        ≡ and_then (load_count srv server.name s) (after_count key min_server seen k server rest)
  unfolding scan_servers
  scan_step key min_server seen k server rest s ne =
      let off : bytes_eq server.name min_server.name ≡ false =
        ground (arith, bytes_eq_iff server.name min_server.name) in
      rw (off, scan_servers) refl

  scan_servers-Picks :
      (key : Bytes) (min_server m : ChatServer) (seen rest : Servers) (s : Service srv)
      → Unnamed min_server.name rest
      → Distinct rest
      → NoneBelow min_server.con_count seen
      → (scan_servers srv key min_server seen rest s).0 ≡ done m
      → Picks key min_server seen rest m (scan_servers srv key min_server seen rest s).1
  scan_servers-Picks key min_server m seen [] s u d n h =
      let same : min_server ≡ m = unfold scan_servers in cc in
      unfold scan_servers in
      (
        [],
        ap (λ x. (key, x) ∷ seen) same ∙ ap (λ es. (key, m) ∷ es) (sym (append-nil seen)),
        subst (λ es. NoneBelow m.con_count es) (sym (append-nil seen))
            (subst (λ x. NoneBelow x.con_count seen) same n),
        tt,
        inl (sym same),
      )
  scan_servers-Picks key min_server m seen ((k, server) ∷ rest) s (u, us) (d, ds) n h =
      let step = scan_step key min_server seen k server rest s u in
      let (count, read, went) =
        and_then-done (load_count srv server.name s) (after_count key min_server seen k server rest)
          (sym (ap (λ r. r.0) step) ∙ h) in
      let whole = step ∙ went in
      let low = lower_lem min_server server count k seen rest us d n in
      let (more, held, none_below, recounted, origin) =
        scan_servers-Picks key (lower min_server server count) m
          (seen ++ (k, counted server count) ∷ []) rest _ low.0 ds low.1
          (sym (ap (λ r. r.0) whole) ∙ h) in
      let joined = append_assoc seen ((k, counted server count) ∷ []) more in
      (
        (k, counted server count) ∷ more,
        ap (λ (r : Outcome ChatServer × Service srv). r.1.servers) whole
            ∙ held
            ∙ ap (λ es. (key, m) ∷ es) joined,
        subst (λ es. NoneBelow m.con_count es) joined none_below,
        (refl, refl, recounted),
        lower_origin min_server server m count more origin,
      )

  first_origin :
      (first m : ChatServer) (count : ℤ) {r : Outcome ℤ} (others : Servers)
      → r ≡ done count
      → (m ≡ counted first count) ⊎ InServers m others
      → ((r ≡ done m.con_count) × (m ≡ counted first m.con_count)) ⊎ InServers m others
  first_origin first m count others read (inr i) = inr i
  first_origin first m count others read (inl e) = inl (ground arith, ground arith)

  -- On a map whose servers have different names, if `getChatServer` returns: the other entries are
  -- as they were but for their counts, none of them below that of the server returned; that server
  -- is the first one with the count that was read for it, or else the server of one of the others
  -- with its count; and it overwrites the map's first entry, since `minServer` is a reference to it.
  pub pick_server_min :
      (key : Bytes) (first m : ChatServer) (rest : Servers) (s : Service srv)
      → s.servers ≡ (key, first) ∷ rest
      → Distinct s.servers
      → (pick_server srv s).0 ≡ done m
      → (others : Servers) × ((pick_server srv s).1.servers ≡ (key, m) ∷ others)
        × NoneBelow m.con_count others
        × Recounted rest others
        × (((load_count srv first.name s).0 ≡ done m.con_count)
              × (m ≡ record first { con_count = m.con_count })
            ⊎ InServers m others)
  unfolding pick_server min_of
  pick_server_min key first m rest s e d h =
      let (u, ds) = subst Distinct e d in
      let start = ap (λ es. min_of srv es s) e in
      let scan : ℤ → Service srv → Outcome ChatServer × Service srv = λ count s'.
        scan_servers srv key (counted first count) [] rest
          (record s' { servers = (key, counted first count) ∷ rest }) in
      let (count, read, went) =
        and_then-done (load_count srv first.name s) scan (sym (ap (λ r. r.0) start) ∙ h) in
      let whole = start ∙ went in
      let (tail, held, none_below, recounted, origin) =
        scan_servers-Picks key (counted first count) m [] rest _ u ds tt
          (sym (ap (λ r. r.0) whole) ∙ h) in
      (
        tail,
        ap (λ (r : Outcome ChatServer × Service srv). r.1.servers) whole ∙ held,
        none_below,
        recounted,
        first_origin first m count tail read origin,
      )
