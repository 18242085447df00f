-- ===== src/Databases/Registerdb.antt =====
-- registerdb/registerdb.go: who asked to be known by which name in the game. `title` is the title
-- case of a library, and whether the file can be written is an argument.
pub mod Queued
pub mod Tests
use talkeqidea.Common.{
  ℕ, suc, ◌+◌, ◌≡◌, Bool, true, false, not, ◌&&◌, ◌||◌, List, [], ◌∷◌, ◌++◌, Option, none, some,
  Text, codes, text_eq, ltb, if◌then◌else◌, TextMap, lookup, insert, Result, ok, err,
}

pub record RegisterEntry : Type 0 where
  pub discord_id : Text
  pub discord_name : Text
  pub status : Text
  pub character_name : Text
  pub channel_id : Text
  pub message_id : Text
  pub timeout : ℕ
  pub code : Text

pub record Registrations : Type 0 where
  pub registrations : TextMap RegisterEntry
  pub file : Option (TextMap RegisterEntry)

pub data RegisterError : Type 0 where
  code_expired invalid_code not_found not_saved : RegisterError

-- `save`, which truncates the file before it writes.
unfoldable pub save : Registrations → Bool → Registrations
save r can_save = if can_save then record r { file = some r.registrations } else r

unfoldable pub set :
    (Text → Text)
    → Registrations
    → Text
    → Text
    → Text
    → Text
    → Text
    → Text
    → ℕ
    → Bool
    → Registrations
set title r discord_id discord_name character channel_id message_id status timeout can_save =
    save
      (record r {
        registrations =
            insert discord_id
              (record {
                discord_id = discord_id;
                discord_name = discord_name;
                character_name = title character;
                status = status;
                message_id = message_id;
                channel_id = channel_id;
                timeout = timeout;
                code = codes "1234";
              })
              r.registrations;
      })
      can_save

-- The loop of `FindByCode`.
unfoldable pub find_code : Text → ℕ → TextMap RegisterEntry → Result RegisterError RegisterEntry
find_code code now [] = err invalid_code
find_code code now ((id, e) ∷ rest) =
    if text_eq e.code code
    then (if ltb e.timeout now then err code_expired else ok e)
    else find_code code now rest

unfoldable pub find_by_code : Registrations → Text → ℕ → Result RegisterError RegisterEntry
find_by_code r code now = find_code code now r.registrations

abbrev pub in_queue : Text
in_queue = codes "In Queue"

abbrev pub waiting_reply : Text
waiting_reply = codes "Waiting Reply"

-- An entry that is still waiting to be told in the game.
unfoldable pub is_queued : ℕ → RegisterEntry → Bool
is_queued now e = not (ltb e.timeout now) && text_eq e.status in_queue

-- The loop of `QueuedEntries`, over the keys that the map had.
unfoldable pub take_queued :
    ℕ
    → TextMap RegisterEntry
    → List RegisterEntry
    → TextMap RegisterEntry
    → TextMap RegisterEntry × List RegisterEntry
take_queued now m taken [] = (m, taken)
take_queued now m taken ((id, e) ∷ rest) =
    let told = record e { status = waiting_reply } in
    let later = take_queued now (insert told.discord_id told m) (taken ++ told ∷ []) rest in
    if is_queued now e then later else take_queued now m taken rest

unfoldable pub queued_entries : Registrations → ℕ → Registrations × List RegisterEntry
queued_entries r now =
    let (m, taken) = take_queued now r.registrations [] r.registrations in
    (record r { registrations = m }, taken)

unfoldable pub entry : Registrations → Text → Option RegisterEntry
entry r id = lookup id r.registrations

unfoldable pub confirmed_name : Option RegisterEntry → Text
confirmed_name none = []
confirmed_name (some e) = if text_eq e.status (codes "confirmed") then e.character_name else []

unfoldable pub character_name : Registrations → Text → Text
character_name r id = confirmed_name (lookup id r.registrations)

unfoldable pub update_found :
    Registrations
    → Text
    → Text
    → ℕ
    → Bool
    → Option RegisterEntry
    → Registrations × Result RegisterError (Unit {0})
update_found r id status timeout can_save none = (r, err not_found)
update_found r id status timeout can_save (some e) =
    let changed : RegisterEntry = record e {
      status = status;
      timeout = timeout;
      code = if text_eq status (codes "Confirmed") then [] else e.code;
    } in
    (
      save (record r { registrations = insert id changed r.registrations }) can_save,
      if can_save then ok tt else err not_saved,
    )

unfoldable pub update :
    Registrations → Text → Text → ℕ → Bool → Registrations × Result RegisterError (Unit {0})
update r id status timeout can_save =
    update_found r id status timeout can_save (lookup id r.registrations)
