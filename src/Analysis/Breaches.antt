-- ===== src/Analysis/Breaches.antt =====
-- `BreachStore` and `BreachMonitorService` (backend/security-analysis-service/src/breach-monitor/
-- breach-store.ts and breach-monitor.service.ts): the e-mail addresses that are watched and the
-- breaches found for them. The table of breaches is taken under its unique index, the hash of the
-- address and the source; its foreign key is written out: an insertion for a hash that is not
-- watched fails, and the deletion of a hash deletes its breaches. AES-256-GCM under the derived key,
-- between texts of hexadecimal digits, is a parameter, and so is whether an API key is set. What
-- HIBP answers is an argument.
pub mod Stored
pub mod Once
mod Tests
use sentinel_vault.Common.{
  ℕ, String, Bool, true, false, ◌&&◌, not, Option, none, some, List, [], ◌∷◌, map, is_some,
  or_default, ◌==◌, eqb, leb, ltb, if◌then◌else◌,
}
use sentinel_vault.Common.Text.{is_empty}
use sentinel_vault.Common.Equality.{string_eq, pair_eq}
use sentinel_vault.Common.Exec.{Exec, ok, err, pure, internal_error}
use sentinel_vault.Common.Repository.{Repository, unordered}
use Prim.Native.String.{◌++◌}
use Prim.Native.Char.{Char, code}

pub record BreachEntry : Type 0 where
  pub name : String
  pub breach_date : String
  pub data_classes : List String

pub record BreachOptIn : Type 0 where
  pub email_hash : String
  pub encrypted_email : String
  pub opted_in_at : ℕ

pub record BreachRow : Type 0 where
  pub email_hash : String
  pub breach_source : String
  pub name : String
  pub breach_date : String
  pub data_classes : List String
  pub first_seen_at : ℕ

abbrev pub opt_in_key : BreachOptIn → String
opt_in_key o = o.email_hash

abbrev pub row_key : BreachRow → String × String
row_key r = (r.email_hash, r.breach_source)

-- The part up to the first separator, with the next parts.
abbrev pub cons_part : Char → List String → List String
cons_part c [] = String.◌∷◌ c "" ∷ []
cons_part c (part ∷ parts) = String.◌∷◌ c part ∷ parts

-- `s.split(separator)` for a separator of one character
unfoldable pub split : ℕ → String → List String
split separator String.[] = "" ∷ []
split separator (String.◌∷◌ c s) =
    let parts = split separator s in
    if eqb (code c) separator then "" ∷ parts else cons_part c parts

-- The text of a `simple-array` column.
abbrev pub join_commas : List String → String
join_commas [] = ""
join_commas (x ∷ []) = x
join_commas (x ∷ y ∷ xs) = x ++ ("," ++ join_commas (y ∷ xs))

abbrev pub source_of : BreachEntry → String
source_of b = "hibp:" ++ b.name

abbrev pub new_row : ℕ → String → BreachEntry → BreachRow
new_row now hash b = record {
  email_hash = hash;
  breach_source = source_of b;
  name = b.name;
  breach_date = b.breach_date;
  data_classes = b.data_classes;
  first_seen_at = now;
}

-- The entry that is made of a returned raw row, whose classes are one text.
abbrev pub returned : BreachRow → BreachEntry
returned r = record {
  name = r.name;
  breach_date = r.breach_date;
  data_classes = split 44 (join_commas r.data_classes);
}

abbrev pub to_dto : BreachRow → BreachEntry
to_dto r = record { name = r.name; breach_date = r.breach_date; data_classes = r.data_classes }

-- A breach in the body of HIBP.
pub record RawBreach : Type 0 where
  pub raw_name : Option String
  pub raw_date : Option String
  pub raw_classes : Option (List String)

pub data HibpAnswer : Type 0 where
  network_error : HibpAnswer
  responds : ℕ → List RawBreach → HibpAnswer

abbrev pub metadata_of : RawBreach → BreachEntry
metadata_of b = record {
  name = or_default b.raw_name "Unknown";
  breach_date = or_default b.raw_date "Unknown";
  data_classes = or_default b.raw_classes [];
}

-- `resp.ok`
abbrev pub is_ok : ℕ → Bool
is_ok status = leb 200 status && ltb status 300

abbrev pub fetched : HibpAnswer → List BreachEntry
fetched network_error = []
fetched (responds status body) = if is_ok status then map metadata_of body else []

pub record BreachService : Type 1 where
  pub opt_ins : Repository BreachOptIn opt_in_key
  pub entries : Repository BreachRow row_key
  -- the tag and the ciphertext, for a nonce and an address
  pub seal : String → String → String × String
  -- the address, for a nonce, a tag and a ciphertext; none if decryption throws
  pub unseal : String → String → String → Option String
  pub has_api_key : Bool

module _ (service : BreachService) where
  open service use {opt_ins, entries, seal, unseal, has_api_key}

  pub record Tables : Type 0 where
    pub opt_in_table : opt_ins.Table
    pub entry_table : entries.Table

  abbrev pub encrypt_email : String → String → String
  encrypt_email iv email =
      let (tag, ciphertext) = seal iv email in iv ++ (":" ++ (tag ++ (":" ++ ciphertext)))

  abbrev pub decrypt_parts : List String → Option String
  decrypt_parts (iv ∷ tag ∷ ciphertext ∷ []) = unseal iv tag ciphertext
  decrypt_parts parts = none

  -- None where the source throws.
  abbrev pub decrypt_email : String → Option String
  decrypt_email stored = decrypt_parts (split 58 stored)

  abbrev pub new_opt_in : ℕ → String → String → Option BreachOptIn → BreachOptIn
  new_opt_in now hash encrypted existing = record {
    email_hash = hash;
    encrypted_email = encrypted;
    opted_in_at = elim existing [ none ↦ now | some o ↦ o.opted_in_at ];
  }

  unfoldable pub opt_in : ℕ → String → String → String → Exec Tables (Unit {0})
  opt_in now iv hash email s = (
    ok tt,
    record s {
      opt_in_table =
          opt_ins.save
            (new_opt_in now hash (encrypt_email iv email) (opt_ins.at s.opt_in_table hash))
            s.opt_in_table;
    },
  )

  unfoldable pub opt_out : String → Exec Tables (Unit {0})
  opt_out hash s = (
    ok tt,
    record s {
      opt_in_table = opt_ins.delete (λ o. o.email_hash == hash) s.opt_in_table;
      entry_table = entries.delete (λ r. r.email_hash == hash) s.entry_table;
    },
  )

  abbrev pub is_opted_in : String → Tables → Bool
  is_opted_in hash s = is_some (opt_ins.at s.opt_in_table hash)

  abbrev pub email_of : Option BreachOptIn → Option String
  email_of none = none
  email_of (some o) = decrypt_email o.encrypted_email

  abbrev pub get_email : String → Tables → Option String
  get_email hash s = email_of (opt_ins.at s.opt_in_table hash)

  abbrev pub all_opted_in_hashes : Tables → List String
  all_opted_in_hashes s =
      map (λ (o : BreachOptIn). o.email_hash) (opt_ins.find unordered (λ o. true) s.opt_in_table)

  abbrev pub get_breaches : String → Tables → List BreachEntry
  get_breaches hash s =
      map to_dto (entries.find unordered (λ r. r.email_hash == hash) s.entry_table)

  -- `INSERT … ON CONFLICT DO NOTHING`: the rows inserted, and the table.
  unfoldable pub insert_new :
      ℕ → String → List BreachEntry → entries.Table → List BreachRow × entries.Table
  insert_new now hash [] t = ([], t)
  insert_new now hash (b ∷ incoming) t =
      let kept = insert_new now hash incoming t in
      let (rows, t') = insert_new now hash incoming (entries.save (new_row now hash b) t) in
      if is_some (entries.at t (hash, source_of b)) then kept else (new_row now hash b ∷ rows, t')

  abbrev pub store_new : ℕ → String → List BreachEntry → Exec Tables (List BreachEntry)
  store_new now hash incoming s =
      let (rows, t) = insert_new now hash incoming s.entry_table in
      (ok (map returned rows), record s { entry_table = t })

  unfoldable pub update_breaches : ℕ → String → List BreachEntry → Exec Tables (List BreachEntry)
  update_breaches now hash [] s = (ok [], s)
  update_breaches now hash (b ∷ incoming) s =
      if is_opted_in hash s then store_new now hash (b ∷ incoming) s else (err internal_error, s)

  abbrev pub fetch_breaches_for_email : HibpAnswer → List BreachEntry
  fetch_breaches_for_email answer = if has_api_key then fetched answer else []

  abbrev pub check_email : ℕ → String → HibpAnswer → Option String → Exec Tables (List BreachEntry)
  check_email now hash answer none s = (ok [], s)
  check_email now hash answer (some email) s =
      if is_empty email
      then (ok [], s)
      else update_breaches now hash (fetch_breaches_for_email answer) s

  unfoldable pub run_check_and_diff : ℕ → String → HibpAnswer → Exec Tables (List BreachEntry)
  run_check_and_diff now hash answer s = check_email now hash answer (get_email hash s) s

  pub data Op : Type 0 where
    opts_in : ℕ → String → String → String → Op
    opts_out : String → Op
    checks : ℕ → String → HibpAnswer → Op

  unfoldable pub step : Op → Tables → Tables
  step (opts_in now iv hash email) s = (opt_in now iv hash email s).1
  step (opts_out hash) s = (opt_out hash s).1
  step (checks now hash answer) s = (run_check_and_diff now hash answer s).1

  unfoldable pub run : List Op → Tables → Tables
  run [] s = s
  run (op ∷ ops) s = run ops (step op s)
