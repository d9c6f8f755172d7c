-- ===== src/Devices/Shutdown.antt =====
-- server/src/ems/ems_instance.cpp, ems_callbacks.cpp, ems_hmd.cpp, ems_motion_controller.cpp and
-- ems_server_main.cpp: how the devices and the instance are destroyed, the views of the devices, and the main
-- function.
use electric_maple.Common.{
  ℕ, ◌+◌, ◌≡◌, refl, Bool, true, Option, none, List, [], ◌∷◌, ◌++◌, arith, if◌then◌else◌,
}
use electric_maple.Common.Int.{ℤ, negsuc}
use electric_maple.Devices.{
  GenericCallbacks, ems_callbacks_reset, ems_callbacks_call, Event, UpMessageSuper,
}
use electric_maple.Devices.Instance.{Devices, ems_instance_system_devices_destroy}

-- What happens to memory: a device, the data that a display receives, the joints of a controller, the
-- callbacks and the instance are freed; a field of a device is read.
pub data MemoryEvent : Type 0 where
  free_device free_received free_joints read_device : ℕ → MemoryEvent
  free_callbacks free_instance : MemoryEvent

-- `u_device_free` frees the device, whose pointer to the joints is read and cleared after it.
unfoldable pub controller_destroy : ℕ → List MemoryEvent
controller_destroy d = free_device d ∷ read_device d ∷ free_joints d ∷ []

unfoldable pub ems_hmd_destroy : ℕ → List MemoryEvent
ems_hmd_destroy d = free_received d ∷ free_device d ∷ []

pub data DeviceKind : Type 0 where
  hmd motion_controller : DeviceKind

unfoldable pub xrt_device_destroy : DeviceKind × ℕ → List MemoryEvent
xrt_device_destroy (hmd, d) = ems_hmd_destroy d
xrt_device_destroy (motion_controller, d) = controller_destroy d

unfoldable pub destroy_devices : List (DeviceKind × ℕ) → List MemoryEvent
destroy_devices [] = []
destroy_devices (x ∷ xs) = xrt_device_destroy x ++ destroy_devices xs

-- The callbacks, which may be NULL; the pointer is cleared.
unfoldable pub ems_callbacks_destroy : Bool → List MemoryEvent
ems_callbacks_destroy there = if there then free_callbacks ∷ [] else []

unfoldable pub ems_instance_destroy :
    {S : Type 0} (g : GenericCallbacks S) → g.Collection → g.Collection × List MemoryEvent
ems_instance_destroy g callbacks =
    (ems_callbacks_reset g callbacks, ems_callbacks_destroy true ++ (free_instance ∷ []))

-- Monado's helper answers for the display; a controller's assertion fails.
unfoldable pub ems_hmd_get_view_poses : {Query Views : Type 0} → (Query → Views) → Query → Views
ems_hmd_get_view_poses u_device_get_view_poses q = u_device_get_view_poses q

unfoldable pub controller_get_view_poses : {Query Views : Type 0} → Query → Option Views
controller_get_view_poses q = none

-- The result of the process: -1, or that of the server over inter-process communication.
unfoldable pub main : Bool → ℤ → ℤ
main parsed served = if parsed then served else negsuc 0

-- A weight of each device, summed over what is freed and over what is read after it was freed.
abbrev pub freed : (ℕ → ℕ) → List MemoryEvent → ℕ
freed w [] = 0
freed w (free_device d ∷ es) = w d + freed w es
freed w (_ ∷ es) = freed w es

abbrev pub read_late : (ℕ → ℕ) → List MemoryEvent → ℕ
read_late w [] = 0
read_late w (read_device d ∷ es) = w d + read_late w es
read_late w (_ ∷ es) = read_late w es

abbrev pub weight_all : (ℕ → ℕ) → List (DeviceKind × ℕ) → ℕ
weight_all w [] = 0
weight_all w ((kind, d) ∷ xs) = w d + weight_all w xs

abbrev pub weight_controllers : (ℕ → ℕ) → List (DeviceKind × ℕ) → ℕ
weight_controllers w [] = 0
weight_controllers w ((hmd, d) ∷ xs) = weight_controllers w xs
weight_controllers w ((motion_controller, d) ∷ xs) = w d + weight_controllers w xs

devices_freed :
    (w : ℕ → ℕ) (xs : List (DeviceKind × ℕ))
    → (freed w (destroy_devices xs) ≡ weight_all w xs)
      × (read_late w (destroy_devices xs) ≡ weight_controllers w xs)
unfolding destroy_devices xrt_device_destroy ems_hmd_destroy controller_destroy
devices_freed w [] = (refl, refl)
devices_freed w ((hmd, d) ∷ xs) = let (a, b) = devices_freed w xs in (omega (arith, a), b)
devices_freed w ((motion_controller, d) ∷ xs) =
    let (a, b) = devices_freed w xs in (omega (arith, a), omega (arith, b))

-- When the system's devices are destroyed, each of them is freed once, each controller is read after it was
-- freed, and a message that arrives afterwards reaches no device, over any collection of callbacks that
-- behaves as documented.
pub shutdown_frees :
    (w : ℕ → ℕ) (xs : List (DeviceKind × ℕ)) (g : GenericCallbacks Devices)
    (callbacks : g.Collection) (e : Event) (m : UpMessageSuper) (d : Devices)
    → (freed w (destroy_devices xs) ≡ weight_all w xs)
      × (read_late w (destroy_devices xs) ≡ weight_controllers w xs)
      × (ems_callbacks_call g (ems_instance_system_devices_destroy g callbacks) e m d ≡ d)
unfolding ems_instance_system_devices_destroy ems_callbacks_reset ems_callbacks_call
shutdown_frees w xs g callbacks e m d =
    let (a, b) = devices_freed w xs in (a, b, g.invoke-empty e (λ ev callback. callback ev m) d)
