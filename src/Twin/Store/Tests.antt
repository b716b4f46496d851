-- ===== src/Twin/Store/Tests.antt =====
-- The package that the id of a selected device names.
use wind_solar_ess_agent.Base.{◌≡◌, refl, some}
use wind_solar_ess_agent.Js.Text.{codes, text_eq}
use wind_solar_ess_agent.Twin.Store.{pos, package_index_of}

package_of_device : package_index_of (codes "A-03-P07") ≡ some (pos 6)
unfolding package_index_of text_eq
package_of_device = refl
