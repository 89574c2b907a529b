-- ===== src/Entities/Snapshot.antt =====
-- internal/entity/snapshot.go: a row of a listing as an instance. Numbers are natural.
use compshare_agent.Prelude.{ℕ, String, Bool, true, false, Option, none, some, List}
use compshare_agent.Value.{Value, Fields, field, num, str, null, bool_of, fields_of, get_field}

pub record InstanceMigrationProgress : Type 0 where
  pub present : Bool
  pub migration_id : String
  pub state : String
  pub reason : String
  pub current : String
  pub total : String
  pub speed : String
  pub eta_seconds : ℕ
  pub percent : ℕ

pub record InstanceSnapshot : Type 0 where
  pub u_host_id : String
  pub name : String
  pub state : String
  pub os_type : String
  pub gpu : ℕ
  pub gpu_type : String
  pub image_name : String
  pub image_type : String
  pub instance_type : String
  pub start_time : ℕ
  pub scheduler_stop_time : ℕ
  pub stop_time : ℕ
  pub release_time : ℕ
  pub cfs_id : String
  pub migration_progress : InstanceMigrationProgress
  pub cpu : ℕ
  pub memory : ℕ
  pub zone : String
  pub region : String
  pub charge_type : String
  pub is_spot : Bool
  pub expire_time : ℕ
  pub auto_renew : String

-- The functions of Go's library that the package uses on texts.
pub record EntityText : Type 0 where
  -- fmt.Sprint of a value that is no string
  pub sprint : Value → String
  -- strconv.ParseInt, 0 on an error
  pub parse_int : String → ℕ
  pub trim_space : String → String
  pub to_lower : String → String
  -- the letters and digits of a text (unicode.IsLetter, unicode.IsDigit)
  pub letters_and_digits : String → String
  -- strings.FieldsFunc at what is neither
  pub words : String → List String

abbrev no_progress : InstanceMigrationProgress
no_progress = record {
  present = false;
  migration_id = "";
  state = "";
  reason = "";
  current = "";
  total = "";
  speed = "";
  eta_seconds = 0;
  percent = 0;
}

module _ (lib : EntityText) where
  pub string_value : Option Value → String
  string_value none = ""
  string_value (some (str s)) = s
  string_value (some null) = ""
  string_value (some v) = lib.sprint v

  unfoldable pub string_field : Fields → String → String
  unfolding string_value
  string_field row key = string_value (get_field key row)

  pub int_value : Option Value → ℕ
  int_value (some (num n)) = n
  int_value (some (str s)) = lib.parse_int s
  int_value _ = 0

  unfoldable pub int_field : Fields → String → ℕ
  unfolding int_value
  int_field row key = int_value (get_field key row)

  pub progress_of : Option Fields → InstanceMigrationProgress
  unfolding string_field int_field
  progress_of (some (field k v m)) =
      let raw = field k v m in
      record {
        present = true;
        migration_id = string_field raw "MigrationId";
        state = string_field raw "State";
        reason = string_field raw "Reason";
        current = string_field raw "Current";
        total = string_field raw "Total";
        speed = string_field raw "Speed";
        eta_seconds = int_field raw "Eta";
        percent = int_field raw "Percent";
      }
  progress_of _ = no_progress

  unfoldable pub instance_from_map : Fields → InstanceSnapshot
  unfolding string_field int_field progress_of
  instance_from_map row = record {
    u_host_id = string_field row "UHostId";
    name = string_field row "Name";
    state = string_field row "State";
    os_type = string_field row "OsType";
    gpu = int_field row "GPU";
    gpu_type = string_field row "GpuType";
    image_name = string_field row "CompShareImageName";
    image_type = string_field row "CompShareImageType";
    instance_type = string_field row "InstanceType";
    start_time = int_field row "StartTime";
    scheduler_stop_time = int_field row "SchedulerStopTime";
    stop_time = int_field row "StopTime";
    release_time = int_field row "ReleaseTime";
    cfs_id = string_field row "CfsId";
    migration_progress = progress_of (fields_of (get_field "MigrationProgress" row));
    cpu = int_field row "CPU";
    memory = int_field row "Memory";
    zone = string_field row "Zone";
    region = string_field row "Region";
    charge_type = string_field row "ChargeType";
    is_spot = bool_of (get_field "IsSpot" row);
    expire_time = int_field row "ExpireTime";
    auto_renew = string_field row "AutoRenew";
  }
