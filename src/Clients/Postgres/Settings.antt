-- ===== src/Clients/Postgres/Settings.antt =====
-- What a connection string of NewPostgresDB says to a reader of the documented format.
use nomad_temporal_jobs.Prelude.{
  ◌≡◌, refl, ap, ◌∙◌, Bool, true, false, [], ◌∷◌, ◌++◌, append-nil, some, if◌then◌else◌,
}
use nomad_temporal_jobs.Prelude.Text.{Text, codes, is_empty}
use nomad_temporal_jobs.Clients.Postgres.{PostgresConfig, conn_string}
use nomad_temporal_jobs.Clients.Postgres.Reader.{
  Settings, outside, in_value, read_text, settings_of, read_settings, IsPlain, read_text-append,
  read_text-in_value, read_text-before_value, next_setting,
}

abbrev pub IsValue : Text → Type 0
IsValue w = (is_empty w ≡ false) × IsPlain w

-- the settings up to the password, and the text of them
abbrev until_user : PostgresConfig → Settings
until_user c = (codes "host", c.host) ∷ (codes "port", c.port) ∷ (codes "user", c.user) ∷ []

abbrev user_text : PostgresConfig → Text
user_text c = codes "host=" ++ c.host ++ codes " port=" ++ c.port ++ codes " user=" ++ c.user

module _ (c : PostgresConfig) (host : IsValue c.host) (port : IsValue c.port)
    (user : IsValue c.user) where
  read_user_text :
      read_text (outside []) (user_text c)
      ≡ in_value ((codes "host", c.host) ∷ (codes "port", c.port) ∷ []) (codes "user") c.user
  unfolding read_text
  read_user_text =
      next_setting (outside []) (codes "host=" ++ c.host ++ codes " port=" ++ c.port)
        (codes " user=") ((codes "host", c.host) ∷ []) (codes "port") c.port (codes "user") c.user
        (next_setting (outside []) (codes "host=" ++ c.host) (codes " port=") [] (codes "host")
          c.host (codes "port") c.port
          (read_text-append (outside []) (codes "host=") c.host
            ∙ read_text-before_value [] (codes "host") c.host host.0 host.1)
          refl port.0 port.1)
        refl user.0 user.1

  -- the settings that a configuration stands for
  abbrev pub all_settings : Settings
  all_settings =
      until_user c
      ++ ((codes "password", c.password)
          ∷ (codes "dbname", c.db_name)
          ∷ (codes "sslmode", c.ssl_mode)
          ∷ [])
      ++ (if is_empty c.ssl_root_cert then [] else (codes "sslrootcert", c.ssl_root_cert) ∷ [])

  abbrev mode_text : Text
  mode_text =
      user_text c
      ++ codes " password="
      ++ c.password
      ++ codes " dbname="
      ++ c.db_name
      ++ codes " sslmode="
      ++ c.ssl_mode

  read_mode_text :
      IsValue c.password
      → IsValue c.db_name
      → IsValue c.ssl_mode
      → read_text (outside []) mode_text
        ≡ in_value
            (until_user c ++ ((codes "password", c.password) ∷ (codes "dbname", c.db_name) ∷ []))
            (codes "sslmode")
            c.ssl_mode
  unfolding read_text
  read_mode_text password db mode =
      next_setting (outside [])
        (user_text c ++ codes " password=" ++ c.password ++ codes " dbname=" ++ c.db_name)
        (codes " sslmode=") (until_user c ++ ((codes "password", c.password) ∷ [])) (codes "dbname")
        c.db_name (codes "sslmode") c.ssl_mode
        (next_setting (outside []) (user_text c ++ codes " password=" ++ c.password)
          (codes " dbname=") (until_user c) (codes "password") c.password (codes "dbname") c.db_name
          (next_setting (outside []) (user_text c) (codes " password=")
            ((codes "host", c.host) ∷ (codes "port", c.port) ∷ []) (codes "user") c.user
            (codes "password") c.password read_user_text refl password.0 password.1)
          refl db.0 db.1)
        refl mode.0 mode.1

  -- Where no setting is empty but the path of a root certificate, and none holds a blank, a quote or a
  -- backslash, the connection string is read back as the settings of the configuration, the root
  -- certificate among them where it has a path.
  pub read_settings-conn_string :
      IsValue c.password
      → IsValue c.db_name
      → IsValue c.ssl_mode
      → IsPlain c.ssl_root_cert
      → read_settings (conn_string c) ≡ some all_settings
  unfolding read_settings conn_string
  read_settings-conn_string password db mode root = with_root (is_empty c.ssl_root_cert) refl
    where
      with_root :
          (b : Bool)
          → is_empty c.ssl_root_cert ≡ b
          → settings_of (
              read_text
                (outside [])
                (if b then mode_text else mode_text ++ codes " sslrootcert=" ++ c.ssl_root_cert))
            ≡ some (
                until_user c
                ++ ((codes "password", c.password)
                    ∷ (codes "dbname", c.db_name)
                    ∷ (codes "sslmode", c.ssl_mode)
                    ∷ [])
                ++ (if b then [] else (codes "sslrootcert", c.ssl_root_cert) ∷ []))
      with_root true e = ap settings_of (read_mode_text password db mode)
      with_root false e = ap settings_of (
          next_setting (outside []) mode_text (codes " sslrootcert=")
            (until_user c ++ ((codes "password", c.password) ∷ (codes "dbname", c.db_name) ∷ []))
            (codes "sslmode") c.ssl_mode (codes "sslrootcert") c.ssl_root_cert
            (read_mode_text password db mode) refl e root)

  abbrev database_text : Text → Text
  database_text password =
      user_text c ++ codes " password=" ++ password ++ codes " dbname=" ++ c.db_name

  read_swallowed :
      IsPlain c.db_name
      → read_text (outside []) (database_text [])
        ≡ in_value (until_user c) (codes "password") (codes "dbname=" ++ c.db_name)
  unfolding read_text
  read_swallowed db =
      let upto = user_text c ++ codes " password=" in
      let to_password =
        read_text-append (outside []) (user_text c) (codes " password=")
        ∙ ap (λ q. read_text q (codes " password=")) read_user_text in
      let to_database =
        read_text-append (outside []) (upto ++ []) (codes " dbname=")
        ∙ ap (λ q. read_text q (codes " dbname="))
            (ap (read_text (outside [])) (append-nil upto) ∙ to_password) in
      read_text-append (outside []) (upto ++ [] ++ codes " dbname=") c.db_name
      ∙ ap (λ q. read_text q c.db_name) to_database
      ∙ read_text-in_value (until_user c) (codes "password") (codes "dbname=") c.db_name db

  -- With an empty password, and without the path of a root certificate, the setting of the database
  -- is read as the password, and no database is set.
  pub read_settings-swallows :
      c.password ≡ []
      → IsPlain c.db_name
      → IsValue c.ssl_mode
      → is_empty c.ssl_root_cert ≡ true
      → read_settings (conn_string c)
        ≡ some (
            until_user c
            ++ ((codes "password", codes "dbname=" ++ c.db_name)
                ∷ (codes "sslmode", c.ssl_mode)
                ∷ []))
  unfolding read_settings conn_string
  read_settings-swallows none_set db mode root =
      rw (root, none_set)
        (ap settings_of (
          next_setting (outside []) (database_text []) (codes " sslmode=") (until_user c)
            (codes "password") (codes "dbname=" ++ c.db_name) (codes "sslmode") c.ssl_mode
            (read_swallowed db) refl mode.0 mode.1))
