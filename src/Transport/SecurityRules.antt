-- ===== src/Transport/SecurityRules.antt =====
-- What the security configuration of src/dds_transport.cpp guarantees.
use resilient_dds_data_plane.Base.{
  ◌≡◌, ◌≢◌, ◌↔◌, ◌⊎◌, refl, sym, subst, Bool, true, false, not, ◌||◌, ◌&&◌, Option, none, some,
  Bool-cases, inl, inr, if◌then◌else◌, List, [], ◌∷◌, ◌++◌, Bytes, codes, arith, is_empty,
  starts_with, All, str_eq,
}
use resilient_dds_data_plane.Transport.Security.{
  TransportMode, defaults, udp_only, file_uri, DdsSecurityConfig, FileSystem, complete, scheme,
  paths_ok, paths_of, security_config_ok, udpv4, ParticipantQos, apply_security, participant_qos,
  join, security_from_directory,
}

-- A path that the program may hand to Fast DDS: a file URI, or a file that is there.
abbrev pub IsUsable : FileSystem → Bytes → Type 0
IsUsable fs path = (starts_with scheme path ≡ true) ⊎ (fs.is_regular_file path ≡ true)

paths_ok_iff :
    (fs : FileSystem) (paths : List Bytes) → (paths_ok fs paths ≡ true) ↔ All (IsUsable fs) paths
unfolding paths_ok
paths_ok_iff fs [] = ((λ _. tt), (λ _. refl))
paths_ok_iff fs (path ∷ paths) = ground (arith, paths_ok_iff fs paths)

complete_iff :
    (c : DdsSecurityConfig)
    → c.enabled ≡ true
    → (complete c ≡ true) ↔ All (λ path. path ≢ []) (paths_of c)
unfolding complete is_empty
complete_iff c e = ground arith

-- A start passes the security check exactly when security is off, or all six paths are given and
-- each is a file URI or an existing regular file.
pub security_config_ok_iff :
    (fs : FileSystem) (c : DdsSecurityConfig)
    → (security_config_ok fs none ≡ true)
      × ((security_config_ok fs (some c) ≡ true) ↔ (
          (c.enabled ≡ false)
          ⊎ (All (λ path. path ≢ []) (paths_of c) × All (IsUsable fs) (paths_of c))))
unfolding security_config_ok
security_config_ok_iff fs c = ground (arith, complete_iff c, paths_ok_iff fs (paths_of c))

is_empty-append : (s t : Bytes) → is_empty t ≡ false → is_empty (s ++ t) ≡ false
unfolding is_empty
is_empty-append [] t h = h
is_empty-append (c ∷ s) t h = refl

is_empty-join : (base name : Bytes) → is_empty name ≡ false → is_empty (join base name) ≡ false
unfolding join
is_empty-join base name h =
    ground (arith, is_empty-append base name h, is_empty-append (base ++ codes "/") name h)

-- A directory gives a configuration that is switched on and lacks nothing, with the encryption
-- asked for; the empty path gives one that is switched off.
pub security_from_directory-complete :
    (root role : Bytes) (encryption : Bool)
    → let c = security_from_directory root role encryption in
      (c.enabled ≡ not (is_empty root))
      × (complete c ≡ true)
      × (c.encryption ≡ (is_empty root || encryption))
unfolding security_from_directory complete
security_from_directory-complete root role encryption = ground (
  arith,
  is_empty-join root (codes "identity_ca.pem") (unfold is_empty in refl),
  is_empty-join root (role ++ codes "-cert.pem")
      (is_empty-append role (codes "-cert.pem") (unfold is_empty in refl)),
  is_empty-join root (role ++ codes "-key.pem")
      (is_empty-append role (codes "-key.pem") (unfold is_empty in refl)),
  is_empty-join root (codes "permissions_ca.pem") (unfold is_empty in refl),
  is_empty-join root (codes "governance.smime") (unfold is_empty in refl),
  is_empty-join root (role ++ codes "-permissions.smime")
      (is_empty-append role (codes "-permissions.smime") (unfold is_empty in refl)),
)

-- The value of the first property of a name.
abbrev pub value_of : Bytes → List (Bytes × Bytes) → Option Bytes
value_of name [] = none
value_of name ((k, value) ∷ props) =
    let later = value_of name props in if str_eq k name then some value else later

-- The URI that stands for a path: itself if it is a file URI, or that of the absolute path.
abbrev pub uri : FileSystem → Bytes → Bytes
uri fs path =
    if starts_with (codes "file://") path then path else codes "file://" ++ fs.absolute path

-- A security property is there exactly when security is on, with this value.
abbrev pub Gives : DdsSecurityConfig → List (Bytes × Bytes) → Bytes → Bytes → Type 0
Gives c props name value = value_of name props ≡ (if c.enabled then some value else none)

module _ (fs : FileSystem) (c : DdsSecurityConfig) (props : List (Bytes × Bytes)) where
  -- The participant authenticates itself with its certificate and its key.
  abbrev pub Authenticates : Type 0
  Authenticates =
      Gives c props (codes "dds.sec.auth.plugin") (codes "builtin.PKI-DH")
      × Gives c props (codes "dds.sec.auth.builtin.PKI-DH.identity_ca") (uri fs c.identity_ca)
      × Gives c props (codes "dds.sec.auth.builtin.PKI-DH.identity_certificate")
          (uri fs c.identity_certificate)
      × Gives c props (codes "dds.sec.auth.builtin.PKI-DH.private_key") (uri fs c.private_key)
      × Gives c props (codes "dds.sec.auth.builtin.PKI-DH.preferred_key_agreement") (codes "ECDH")

  -- Access is controlled by the governance and the permissions.
  abbrev pub ControlsAccess : Type 0
  ControlsAccess =
      Gives c props (codes "dds.sec.access.plugin") (codes "builtin.Access-Permissions")
      × Gives c props (codes "dds.sec.access.builtin.Access-Permissions.permissions_ca")
          (uri fs c.permissions_ca)
      × Gives c props (codes "dds.sec.access.builtin.Access-Permissions.governance")
          (uri fs c.governance)
      × Gives c props (codes "dds.sec.access.builtin.Access-Permissions.permissions")
          (uri fs c.permissions)

  abbrev pub Encrypts : Type 0
  Encrypts =
      value_of (codes "dds.sec.crypto.plugin") props
      ≡ (if c.enabled && c.encryption then some (codes "builtin.AES-GCM-GMAC") else none)

module _ (fs : FileSystem) (q : ParticipantQos) (c : DdsSecurityConfig) where
  secured_lem :
      q.properties ≡ []
      → c.enabled ≡ true
      → let props = (apply_security fs q c).properties in
        Authenticates fs c props × ControlsAccess fs c props × Encrypts fs c props
  unfolding apply_security file_uri str_eq
  secured_lem e h =
      rw (e, h) ((refl, refl, refl, refl, refl), (refl, refl, refl, refl), ground arith)

  unsecured_lem :
      c.enabled ≡ false → Authenticates fs c [] × ControlsAccess fs c [] × Encrypts fs c []
  unsecured_lem h = rw h ((refl, refl, refl, refl, refl), (refl, refl, refl, refl), refl)

  given_lem :
      q.properties ≡ []
      → let props = (if c.enabled then apply_security fs q c else q).properties in
        (Authenticates fs c props × ControlsAccess fs c props × Encrypts fs c props)
        × ((props ≡ []) ↔ (c.enabled ≡ false))
  unfolding apply_security
  given_lem e =
      let given = λ (props : List (Bytes × Bytes)).
        Authenticates fs c props × ControlsAccess fs c props × Encrypts fs c props in
      let props = (if c.enabled then apply_security fs q c else q).properties in
      elim (Bool-cases c.enabled) [
        | inl h ↦
            let same : props ≡ (apply_security fs q c).properties = rw h refl in
            (subst given (sym same) (secured_lem e h), ground (arith, e))
        | inr h ↦
            let same : props ≡ [] = rw (h, e) refl in
            (subst given (sym same) (unsecured_lem h), ground (arith, e))
      ]

-- From a default without properties, a participant whose configuration is enabled is given what it
-- takes to authenticate (the PKI-DH plugin, the URIs of its authority, certificate and key, and ECDH)
-- and to control access (the Access-Permissions plugin, and the URIs of its authority, governance and
-- permissions), and the AES-GCM-GMAC plugin exactly when encryption is asked for too. One with security
-- off, or without a configuration, is given no property. The transport mode has no say in any of it.
pub participant_secured :
    (fs : FileSystem) (base : ParticipantQos) (mode : TransportMode) (c : DdsSecurityConfig)
    → base.properties ≡ []
    → let props = (participant_qos fs base mode (some c)).properties in
      (Authenticates fs c props × ControlsAccess fs c props × Encrypts fs c props)
      × ((props ≡ []) ↔ (c.enabled ≡ false))
      × ((participant_qos fs base mode none).properties ≡ [])
unfolding participant_qos
participant_secured fs base defaults c e = let (a, b) = given_lem fs base c e in (a, b, e)
participant_secured fs base udp_only c e =
    let only : ParticipantQos = record base {
      use_builtin_transports = false;
      user_transports = base.user_transports ++ (udpv4 ∷ []);
    } in
    let (a, b) = given_lem fs only c e in (a, b, e)
