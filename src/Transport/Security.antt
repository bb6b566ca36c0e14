-- ===== src/Transport/Security.antt =====
-- include/resilientdds/dds_transport.hpp and src/dds_transport.cpp: the security configuration and the
-- participant's QoS. The file system answers through `FileSystem`.
use resilient_dds_data_plane.Base.{
  Bool, true, false, not, ◌&&◌, ◌||◌, Option, none, some, List, [], ◌∷◌, ◌++◌, Bytes, codes, ◌==◌,
  if◌then◌else◌, is_empty, starts_with,
}

pub data TransportMode : Type 0 where
  defaults udp_only : TransportMode

pub record DdsSecurityConfig : Type 0 where
  pub enabled : Bool
  pub encryption : Bool
  pub identity_ca : Bytes
  pub identity_certificate : Bytes
  pub private_key : Bytes
  pub permissions_ca : Bytes
  pub governance : Bytes
  pub permissions : Bytes

-- std::filesystem::is_regular_file, and std::filesystem::absolute as a string.
pub record FileSystem : Type 0 where
  pub is_regular_file : Bytes → Bool
  pub absolute : Bytes → Bytes

-- The initial values of the fields.
abbrev pub no_security : DdsSecurityConfig
no_security = record {
  enabled = false;
  encryption = true;
  identity_ca = [];
  identity_certificate = [];
  private_key = [];
  permissions_ca = [];
  governance = [];
  permissions = [];
}

unfoldable pub complete : DdsSecurityConfig → Bool
complete c =
    not c.enabled
    || (not (is_empty c.identity_ca)
        && not (is_empty c.identity_certificate)
        && not (is_empty c.private_key)
        && not (is_empty c.permissions_ca)
        && not (is_empty c.governance)
        && not (is_empty c.permissions))

abbrev pub scheme : Bytes
scheme = codes "file://"

unfoldable pub file_uri : FileSystem → Bytes → Bytes
file_uri fs value = if starts_with scheme value then value else scheme ++ fs.absolute value

-- The loop over the six paths.
unfoldable pub paths_ok : FileSystem → List Bytes → Bool
paths_ok fs [] = true
paths_ok fs (path ∷ paths) =
    let rest = paths_ok fs paths in
    if starts_with scheme path then rest else if not (fs.is_regular_file path) then false else rest

abbrev pub paths_of : DdsSecurityConfig → List Bytes
paths_of c =
    c.identity_ca ∷ c.identity_certificate ∷ c.private_key ∷ c.permissions_ca ∷ c.governance
    ∷ c.permissions ∷ []

-- `none` is the null pointer.
unfoldable pub security_config_ok : FileSystem → Option DdsSecurityConfig → Bool
unfolding paths_ok complete
security_config_ok fs none = true
security_config_ok fs (some c) =
    if not c.enabled then true else if not (complete c) then false else paths_ok fs (paths_of c)

pub data UserTransport : Type 0 where
  udpv4 : UserTransport

-- What the program sets of a DomainParticipantQos.
pub record ParticipantQos : Type 0 where
  pub use_builtin_transports : Bool
  pub user_transports : List UserTransport
  pub properties : List (Bytes × Bytes)

unfoldable pub apply_security : FileSystem → ParticipantQos → DdsSecurityConfig → ParticipantQos
unfolding file_uri
apply_security fs qos c = record qos {
  properties =
      qos.properties
      ++ ((codes "dds.sec.auth.plugin", codes "builtin.PKI-DH")
          ∷ (codes "dds.sec.auth.builtin.PKI-DH.identity_ca", file_uri fs c.identity_ca)
          ∷ (
            codes "dds.sec.auth.builtin.PKI-DH.identity_certificate",
            file_uri fs c.identity_certificate,
          )
          ∷ (codes "dds.sec.auth.builtin.PKI-DH.private_key", file_uri fs c.private_key)
          ∷ (codes "dds.sec.auth.builtin.PKI-DH.preferred_key_agreement", codes "ECDH")
          ∷ (codes "dds.sec.access.plugin", codes "builtin.Access-Permissions")
          ∷ (
            codes "dds.sec.access.builtin.Access-Permissions.permissions_ca",
            file_uri fs c.permissions_ca,
          )
          ∷ (codes "dds.sec.access.builtin.Access-Permissions.governance", file_uri fs c.governance)
          ∷ (
            codes "dds.sec.access.builtin.Access-Permissions.permissions",
            file_uri fs c.permissions,
          )
          ∷ [])
      ++ (if c.encryption
          then (codes "dds.sec.crypto.plugin", codes "builtin.AES-GCM-GMAC") ∷ []
          else []);
}

-- `base` is PARTICIPANT_QOS_DEFAULT.
unfoldable pub participant_qos :
    FileSystem → ParticipantQos → TransportMode → Option DdsSecurityConfig → ParticipantQos
participant_qos fs base mode security =
    let qos : ParticipantQos = elim mode [
      | udp_only ↦ record base {
        use_builtin_transports = false;
        user_transports = base.user_transports ++ (udpv4 ∷ []);
      }
      | defaults ↦ base
    ] in
    elim security [ none ↦ qos | some c ↦ if c.enabled then apply_security fs qos c else qos ]

abbrev ends_with_slash : Bytes → Bool
ends_with_slash [] = false
ends_with_slash (c ∷ []) = c == b'/'
ends_with_slash (c ∷ d ∷ s) = ends_with_slash (d ∷ s)

-- `base / name` of std::filesystem on POSIX: an absolute name replaces the base.
unfoldable pub join : Bytes → Bytes → Bytes
join base name =
    if starts_with (codes "/") name
    then name
    else if is_empty base || ends_with_slash base
    then base ++ name
    else base ++ codes "/" ++ name

unfoldable pub security_from_directory : Bytes → Bytes → Bool → DdsSecurityConfig
unfolding join
security_from_directory root role encryption = if is_empty root then no_security else record {
  enabled = true;
  encryption = encryption;
  identity_ca = join root (codes "identity_ca.pem");
  identity_certificate = join root (role ++ codes "-cert.pem");
  private_key = join root (role ++ codes "-key.pem");
  permissions_ca = join root (codes "permissions_ca.pem");
  governance = join root (codes "governance.smime");
  permissions = join root (role ++ codes "-permissions.smime");
}
