-- ===== src/UserStore/Sql/Making.antt =====
-- server/pkg/userstore/sqluserstore.go: the making of the store, which connects to the database and prepares
-- the statements. The store that it gives runs these on the database of the parent.
use moblog_cloud.Prelude.{GoString, codes, Result, ok, wrap_err, ◌>>=◌}

-- What the driver answers to a connection, and to the preparation of a statement.
pub record Driver : Type 0 where
  pub connected : Result (Unit {0})
  pub prepare : GoString → Result (Unit {0})

unfoldable pub new_sql_user_store : Driver → Result (Unit {0})
new_sql_user_store driver = do
  _ ← wrap_err driver.connected (codes "Error while connecting to the database")
  _ ←
      wrap_err
        (driver.prepare
          (codes "INSERT INTO users VALUES (:username, :displayname, :salt, :password)"))
        (codes "Error while preparing create user statement")
  _ ←
      wrap_err (driver.prepare (codes "UPDATE users SET displayname = $1 WHERE username = $2"))
        (codes "Error while preparing update user data statement")
  _ ←
      wrap_err
        (driver.prepare (codes "UPDATE users SET salt = $1, password = $2 WHERE username = $3"))
        (codes "Error while preparing update user password statement")
  _ ←
      wrap_err (driver.prepare (codes "SELECT * FROM users WHERE username = $1"))
        (codes "Error while preparing get user statement")
  _ ←
      wrap_err (driver.prepare (codes "SELECT salt, password FROM users WHERE username = $1"))
        (codes "Error while preparing authenticate user statement")
  _ ←
      wrap_err (driver.prepare (codes "DELETE FROM users WHERE username = $1"))
        (codes "Error while preparing delete user statement")
  _ ←
      wrap_err (driver.prepare (codes "INSERT INTO blogs VALUES ($1, $2, $3)"))
        (codes "Error while preparing create blog statement")
  _ ←
      wrap_err
        (driver.prepare
          (codes "UPDATE blogs SET displayname = $1 WHERE username = $2 AND slug = $3"))
        (codes "Error while preparing update blog statement")
  _ ←
      wrap_err
        (driver.prepare
          (codes "SELECT slug, displayname FROM blogs WHERE username = $1 AND slug = $2"))
        (codes "Error while preparing get blog statement")
  _ ←
      wrap_err (driver.prepare (codes "SELECT slug, displayname FROM blogs WHERE username = $1"))
        (codes "Error while preparing list blogs statement")
  _ ←
      wrap_err (driver.prepare (codes "DELETE FROM blogs WHERE username = $1 AND slug = $2"))
        (codes "Error while preparing delete blog statement")
  ok tt
