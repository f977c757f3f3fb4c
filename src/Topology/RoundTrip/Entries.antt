-- ===== src/Topology/RoundTrip/Entries.antt =====
-- The entries of a section, made and parsed back; aionetiface/net/topology.py.
use aionetiface.Prelude.{none}
use aionetiface.Prelude.{ℕ, ◌≡◌, refl, ap, ◌∙◌, arith, Bool, true, ◌&&◌, ◌||◌}
use aionetiface.Prelude.{List, [], ◌∷◌, Option, some, ◌==◌}
use aionetiface.Bytes.{Bytes}
use aionetiface.Text.{join, decimal}
use aionetiface.Text.Splitting.{
  lacks, all_lack, split-join, lacks-bracketed, lacks-join, inner-bracketed, is_short-bracketed,
}
use aionetiface.Text.Decimal.{
  to_n-is_number, decimal-is_number, lacks-decimal, digits_value-decimal,
}
use aionetiface.Nat.{nat_info, delta_info}
use aionetiface.Topology.{Info, Infos}
use aionetiface.Topology.Hints.{joined_or_zero}
use aionetiface.Topology.Hints.Laws.{is_outer}
use aionetiface.Topology.Parsing.{
  ◌>>=◌, read_number, read_extras, read_range, info_of, parse_info, save, parse_infos,
  parse_section,
}
use aionetiface.Topology.Making.{Entry, encode_entry, encode_entries}

pub read_number-decimal : (n : ℕ) → read_number (decimal n) ≡ some n
unfolding read_number
read_number-decimal n =
    rw (
      decimal-is_number n,
      to_n-is_number (decimal n) (decimal-is_number n),
      digits_value-decimal n,
    )

entry_texts : Entry → List Bytes
entry_texts e =
    decimal e.if_index
    ∷ e.ext
    ∷ e.nic
    ∷ decimal e.port
    ∷ decimal e.nat_type
    ∷ decimal e.delta_type
    ∷ decimal e.delta_value
    ∷ decimal e.nic_subnet
    ∷ decimal e.nic_port
    ∷ []

abbrev pub ips_lack : ℕ → Entry → Bool
ips_lack mark e = lacks mark e.ext && lacks mark e.nic

abbrev pub all_ips_lack : ℕ → List Entry → Bool
all_ips_lack mark [] = true
all_ips_lack mark (e ∷ entries) = ips_lack mark e && all_ips_lack mark entries

lacks-entry_texts :
    (mark : ℕ) (e : Entry)
    → (is_outer mark || mark == b',') ≡ true
    → ips_lack mark e ≡ true
    → all_lack mark (decimal e.netiface_index ∷ entry_texts e) ≡ true
unfolding entry_texts
lacks-entry_texts mark e h k = ground (
  arith,
  lacks-decimal mark e.netiface_index (ground arith),
  lacks-decimal mark e.if_index (ground arith),
  lacks-decimal mark e.port (ground arith),
  lacks-decimal mark e.nat_type (ground arith),
  lacks-decimal mark e.delta_type (ground arith),
  lacks-decimal mark e.delta_value (ground arith),
  lacks-decimal mark e.nic_subnet (ground arith),
  lacks-decimal mark e.nic_port (ground arith),
)

lacks-encode_entry :
    (mark : ℕ) (e : Entry)
    → is_outer mark ≡ true
    → ips_lack mark e ≡ true
    → lacks mark (encode_entry e) ≡ true
unfolding entry_texts
lacks-encode_entry mark e h k =
    lacks-bracketed mark (join b',' (decimal e.netiface_index ∷ entry_texts e)) (ground arith)
      (ground arith)
      (lacks-join mark b',' (decimal e.netiface_index ∷ entry_texts e) (ground arith)
        (lacks-entry_texts mark e (ground arith) k))

pub lacks-encode_entries :
    (mark : ℕ) (entries : List Entry)
    → is_outer mark ≡ true
    → all_ips_lack mark entries ≡ true
    → all_lack mark (encode_entries entries) ≡ true
lacks-encode_entries mark [] h k = refl
lacks-encode_entries mark (e ∷ entries) h k = ground (
  arith,
  lacks-encode_entry mark e h (ground arith),
  lacks-encode_entries mark entries h (ground arith),
)

module _ (read_ip : Bytes → Option (ℕ × ℕ)) where
  -- What a peer learns from an entry: nothing, if one of the addresses is none.
  abbrev pub announced : Entry → Option Info
  announced e = read_range read_ip e.ext >>= λ c. read_range read_ip e.nic >>= λ d. some record {
    netiface_index = e.netiface_index;
    if_index = e.if_index;
    ext = record { range = c; subnet = none };
    nic = record { range = d; subnet = some e.nic_subnet };
    nat = nat_info (some e.nat_type) (some (delta_info e.delta_type e.delta_value)) none;
    port = e.port;
    ext_port = e.port;
    nic_port = e.nic_port;
  }

  abbrev pub announced_all : List Entry → Infos → Infos
  announced_all [] infos = infos
  announced_all (e ∷ entries) infos = announced_all entries (save (announced e) infos)

  info_of-texts :
      (e : Entry) → info_of read_ip (decimal e.netiface_index ∷ entry_texts e) ≡ announced e
  unfolding entry_texts read_extras
  info_of-texts e = rw (
    read_number-decimal e.netiface_index,
    read_number-decimal e.if_index,
    read_number-decimal e.port,
    read_number-decimal e.nat_type,
    read_number-decimal e.delta_type,
    read_number-decimal e.delta_value,
    read_number-decimal e.nic_subnet,
    read_number-decimal e.nic_port,
  )

  parse-encode_entry :
      (e : Entry) → ips_lack b',' e ≡ true → parse_info read_ip (encode_entry e) ≡ announced e
  unfolding parse_info entry_texts
  parse-encode_entry e h =
      let texts : Bytes = join b',' (decimal e.netiface_index ∷ entry_texts e) in
      rw (
        is_short-bracketed texts,
        inner-bracketed texts,
        split-join b',' (decimal e.netiface_index) (entry_texts e)
            (lacks-entry_texts b',' e refl h),
        info_of-texts e,
      )

  parse-encode_entries :
      (entries : List Entry) (infos : Infos)
      → all_ips_lack b',' entries ≡ true
      → parse_infos read_ip (encode_entries entries) infos ≡ announced_all entries infos
  parse-encode_entries [] infos h = refl
  parse-encode_entries (e ∷ entries) infos h =
      ap (λ t. parse_infos read_ip (encode_entries entries) (save t infos))
        (parse-encode_entry e (ground arith))
      ∙ parse-encode_entries entries (save (announced e) infos) (ground arith)

  -- A section of entries is read entry by entry; the mark for no entries reads as none.
  pub parse_section-joined :
      (entries : List Entry)
      → all_ips_lack b',' entries ≡ true
      → all_ips_lack b'|' entries ≡ true
      → parse_section read_ip (joined_or_zero (encode_entries entries)) ≡ announced_all entries []
  unfolding parse_section parse_info
  parse_section-joined [] h k = refl
  parse_section-joined (e ∷ entries) h k =
      rw
        (split-join b'|' (encode_entry e) (encode_entries entries)
          (lacks-encode_entries b'|' (e ∷ entries) refl k))
        (parse-encode_entries (e ∷ entries) [] h)
