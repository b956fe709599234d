-- ===== src/Status/Service/Servers.antt =====
-- The servers that the constructor reads from the configuration.
use quick_chat.Prelude.Assoc.{lookup, lookup-insert}
use quick_chat.Prelude.{
  List, [], ◌∷◌, ◌++◌, some, ◌≡◌, ◌≢◌, refl, sym, ap, ◌∙◌, inl, inr, arith, append_assoc,
  append-nil, Bytes, bytes_key, bytes_eq, bytes_eq_iff, codes, pos, Lacks, All, List-cases,
  if◌then◌else◌,
}
use quick_chat.Common.Config.{ConfigMap, config_index}
use quick_chat.Status.Service.{ChatServer, Servers, words, add_server, add_servers, make_servers}

-- The names with commas between them, as an administrator writes the list.
unfoldable pub join_words : List Bytes → Bytes
join_words [] = []
join_words (w ∷ []) = w
join_words (w ∷ v ∷ ws) = w ++ b',' ∷ join_words (v ∷ ws)

abbrev pub IsWord : Bytes → Type 0
IsWord w = (w ≢ []) × Lacks b',' w

words-comma :
    (w rest word : Bytes)
    → Lacks b',' w
    → words (w ++ b',' ∷ rest) word ≡ (word ++ w) ∷ words rest []
unfolding words
words-comma [] rest word h = ap (λ v. v ∷ words rest []) (sym (append-nil word))
words-comma (c ∷ w) rest word h =
    ground (arith, words-comma w rest (word ++ c ∷ []) h.1, append_assoc word (c ∷ []) w)

words-last : (w word : Bytes) → Lacks b',' w → word ++ w ≢ [] → words w word ≡ (word ++ w) ∷ []
unfolding words
words-last [] [] h ne = absurd (ne refl)
words-last [] (c ∷ word) h ne = ap (λ v. v ∷ []) (sym (append-nil (c ∷ word)))
words-last (c ∷ w) word h ne =
    ground (arith, words-last w (word ++ c ∷ []) h.1, append_assoc word (c ∷ []) w)

words-join : (ws : List Bytes) → All IsWord ws → words (join_words ws) [] ≡ ws
unfolding join_words
words-join [] h = unfold words in refl
words-join (w ∷ []) (h, _) = words-last w [] h.1 h.0
words-join (w ∷ v ∷ ws) (h, hs) =
    words-comma w (join_words (v ∷ ws)) [] h.1 ∙ ap (◌∷◌ w) (words-join (v ∷ ws) hs)

module _ (cfg : ConfigMap) where
  -- What the configuration says under a key of a section.
  abbrev pub setting : Bytes → Bytes → Bytes
  setting section key = (config_index section key cfg).0

  abbrev pub configured : Bytes → ChatServer
  configured section = record {
    host = setting section (codes "Host");
    port = setting section (codes "Port");
    name = setting section (codes "Name");
    con_count = pos 0;
  }

  lookup-add_server :
      (w n : Bytes) (m : Servers)
      → n ≢ []
      → lookup n (add_server cfg w m)
        ≡ (if bytes_eq (setting w (codes "Name")) n then some (configured w) else lookup n m)
  unfolding add_server
  lookup-add_server w n m ne = elim (List-cases (setting w (codes "Name"))) [
    | inl e ↦ ground (arith, bytes_eq_iff (setting w (codes "Name")) n)
    | inr (c, name, e) ↦ ground (
      arith,
      lookup-insert (c ∷ name) n (configured w) m,
      bytes_eq_iff (setting w (codes "Name")) n,
    )
  ]

  lookup-add_servers :
      (ws : List Bytes) (n : Bytes) (m : Servers)
      → n ≢ []
      → All (λ w. setting w (codes "Name") ≢ n) ws
      → lookup n (add_servers cfg ws m) ≡ lookup n m
  unfolding add_servers
  lookup-add_servers [] n m ne h = refl
  lookup-add_servers (w ∷ ws) n m ne (h, hs) =
      lookup-add_servers ws n (add_server cfg w m) ne hs
      ∙ ground (arith, lookup-add_server w n m ne, bytes_eq_iff (setting w (codes "Name")) n)

  add_servers-append :
      (xs ys : List Bytes) (m : Servers)
      → add_servers cfg (xs ++ ys) m ≡ add_servers cfg ys (add_servers cfg xs m)
  unfolding add_servers
  add_servers-append [] ys m = refl
  add_servers-append (x ∷ xs) ys m = add_servers-append xs ys (add_server cfg x m)

  -- Where the entry `Name` of the section `chatservers` is a list of section names with commas
  -- between them, every listed section that has a name of its own becomes a server of the service:
  -- under its name, with the host and the port of its section and a count of 0, unless a later
  -- section of the list has the same name.
  pub make_servers_lists :
      (xs ys : List Bytes) (w : Bytes)
      → All IsWord (xs ++ w ∷ ys)
      → setting (codes "chatservers") (codes "Name") ≡ join_words (xs ++ w ∷ ys)
      → setting w (codes "Name") ≢ []
      → All (λ v. setting v (codes "Name") ≢ setting w (codes "Name")) ys
      → lookup (setting w (codes "Name")) (make_servers cfg) ≡ some (configured w)
  unfolding make_servers
  make_servers_lists xs ys w h listed ne others =
      let n : Bytes = setting w (codes "Name") in
      let split : words (setting (codes "chatservers") (codes "Name")) [] ≡ xs ++ w ∷ ys =
        ap (λ s. words s []) listed ∙ words-join (xs ++ w ∷ ys) h in
      ap (λ ws. lookup n (add_servers cfg ws [])) split
      ∙ ap (lookup n) (add_servers-append xs (w ∷ ys) [])
      ∙ (unfold add_servers in
          lookup-add_servers ys n (add_server cfg w (add_servers cfg xs [])) ne others
          ∙ ground (arith, lookup-add_server w n (add_servers cfg xs []) ne, bytes_eq_iff n n))
